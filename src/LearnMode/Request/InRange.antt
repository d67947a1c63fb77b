-- ===== src/LearnMode/Request/InRange.antt =====
-- The settings that are clamped stay in their ranges, from the load on.
use open_trickler_rp2040_con.Prelude.{ℕ, ◌≡◌, ◌≤◌, Bool, false, if◌then◌else◌, List, [], ◌∷◌, arith}
use open_trickler_rp2040_con.Float.{Floats, lit, lt}
use open_trickler_rp2040_con.Profile.{Readers}
use open_trickler_rp2040_con.Tuner.Limits.{Within}
use open_trickler_rp2040_con.ChargeMode.World.{LearnConfig, learn_mode_get_land_sigma}
use open_trickler_rp2040_con.LearnMode.Proposal.{clamp_safety}
use open_trickler_rp2040_con.LearnMode.Request.{
  Param, default_learn_config, or_default, learn_mode_init, clamp_in, clamp_config, edit_all,
  http_rest_learn_config,
}

-- The configuration behind a load and any requests, the last one first.
unfoldable pub configured :
    {F : Type 0} ⦃fl : Floats F⦄
    → Readers F
    → Bool
    → LearnConfig F
    → List (List Param)
    → LearnConfig F
unfolding learn_mode_init http_rest_learn_config
configured r is_ok loaded [] = learn_mode_init is_ok loaded
configured r is_ok loaded (ps ∷ pss) =
    (http_rest_learn_config r ps (configured r is_ok loaded pss)).0

-- Literals of one decimal are in order.
abbrev pub LiteralsOrdered : {F : Type 0} → Floats F → Type 0
LiteralsOrdered {F} fl =
    (a b : ℕ) → a ≤ b → fl.single.lt (fl.single.lit b 1) (fl.single.lit a 1) ≡ false

module _ {F : Type 0} ⦃fl : Floats F⦄ where
  -- The ranges of the settings that a run divides by, compares with or sizes its margins with.
  pub record InRange (c : LearnConfig F) : Type 0 where
    pub goal : lt c.time_goal_s (lit 10 1) ≡ false
    pub cup : lt c.cup_capacity_gr (lit 200 1) ≡ false
    pub success : Within (lit 500 1) (lit 1000 1) c.min_success_pct
    pub safety : Within (lit 10 1) (lit 50 1) c.coarse_stop_safety
    pub sigma : Within (lit 10 1) (lit 40 1) c.land_sigma

  clamp_in-Within :
      (lo hi v : F)
      → lt lo lo ≡ false
      → lt hi lo ≡ false
      → lt hi hi ≡ false
      → Within lo hi (clamp_in lo hi v)
  clamp_in-Within lo hi v a b c = ground (arith, a, b, c)

  or_default-Within : (lo hi d v : F) → Within lo hi d → Within lo hi (or_default lo hi d v)
  or_default-Within lo hi d v h = ground (arith, h.0, h.1)

  module _ (ord : LiteralsOrdered fl) where
    init-InRange : (is_ok : Bool) (loaded : LearnConfig F) → InRange (learn_mode_init is_ok loaded)
    unfolding learn_mode_init
    init-InRange is_ok loaded =
        let c = if is_ok then loaded else default_learn_config in
        record {
          goal = ground (arith, ord 10 85 (omega arith));
          cup = ground (arith, ord 200 3500 (omega arith));
          success =
              or_default-Within (lit 500 1) (lit 1000 1) (lit 950 1) c.min_success_pct
                (ord 500 950 (omega arith), ord 950 1000 (omega arith));
          safety =
              or_default-Within (lit 10 1) (lit 50 1) (lit 15 1) c.coarse_stop_safety
                (ord 10 15 (omega arith), ord 15 50 (omega arith));
          sigma =
              or_default-Within (lit 10 1) (lit 40 1) (lit 20 1) c.land_sigma
                (ord 10 20 (omega arith), ord 20 40 (omega arith));
        }

    clamp_config-InRange : (c : LearnConfig F) → InRange (clamp_config c)
    unfolding clamp_config
    clamp_config-InRange c = record {
      goal = ground (arith, ord 10 10 (omega arith));
      cup = ground (arith, ord 200 200 (omega arith));
      success =
          clamp_in-Within (lit 500 1) (lit 1000 1) c.min_success_pct (ord 500 500 (omega arith))
            (ord 500 1000 (omega arith)) (ord 1000 1000 (omega arith));
      safety =
          clamp_in-Within (lit 10 1) (lit 50 1) c.coarse_stop_safety (ord 10 10 (omega arith))
            (ord 10 50 (omega arith)) (ord 50 50 (omega arith));
      sigma =
          clamp_in-Within (lit 10 1) (lit 40 1) c.land_sigma (ord 10 10 (omega arith))
            (ord 10 40 (omega arith)) (ord 40 40 (omega arith));
    }

    request-InRange :
        (r : Readers F) (ps : List Param) (c : LearnConfig F)
        → InRange (http_rest_learn_config r ps c).0
    unfolding http_rest_learn_config
    request-InRange r ps c = clamp_config-InRange (edit_all r ps c false).0

    configured-InRange :
        (r : Readers F) (is_ok : Bool) (loaded : LearnConfig F) (pss : List (List Param))
        → InRange (configured r is_ok loaded pss)
    unfolding configured
    configured-InRange r is_ok loaded [] = init-InRange is_ok loaded
    configured-InRange r is_ok loaded (ps ∷ pss) =
        request-InRange r ps (configured r is_ok loaded pss)

    -- Whatever was loaded and whatever requests followed, none of the five settings that are clamped (the
    -- time goal, the cup's capacity, the success to reach, the safety factor and the landing sigma) is
    -- below or above its range in the floats' `<` (the goal and the capacity have no upper end), and the
    -- landing sigma and the safety factor are used as they are stored: the clamps where they are read
    -- change nothing. Literals of one decimal are in order.
    pub configured-Unclamped :
        (r : Readers F) (is_ok : Bool) (loaded : LearnConfig F) (pss : List (List Param))
        → let c = configured r is_ok loaded pss in
          InRange c
          × (learn_mode_get_land_sigma c ≡ c.land_sigma)
          × (clamp_safety c.coarse_stop_safety ≡ c.coarse_stop_safety)
    unfolding learn_mode_get_land_sigma clamp_safety
    configured-Unclamped r is_ok loaded pss =
        let h = configured-InRange r is_ok loaded pss in
        (h, ground (arith, h.sigma.0, h.sigma.1), ground (arith, h.safety.0, h.safety.1))
