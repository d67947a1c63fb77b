-- ===== src/ChargeMode/Request/Steps.antt =====
-- The bracket steps stay in their range, from the load on.
use Prim.Native.Nat.{◌%◌}
use open_trickler_rp2040_con.Prelude.{ℕ, ◌≡◌, ◌≤◌, refl, Bool, false, List, [], ◌∷◌, arith}
use open_trickler_rp2040_con.Float.{Floats, lit, of_nat, ◌*◌}
use open_trickler_rp2040_con.ChargeMode.State.{
  normal, match_mode, ChargeData, clamp_steps, charge_mode_get_active_bracket,
}
use open_trickler_rp2040_con.ChargeMode.Request.{
  Readers, Config, Key, c1, c2, c3, c4, c5, c6, c7, c8, c9, c10, c11, c12, c13, c14, c15, c16, c17,
  c18, c19, c20, c21, c22, c23, c24, c25, c26, ee, other, Param, charge_mode_config_init, edit,
  edit_all, http_rest_charge_mode_config,
}

module _ {F : Type 0} where
  -- Both brackets have 1 to 10 steps.
  pub record InRange (d : ChargeData F) : Type 0 where
    pub normal_min : 1 ≤ d.normal_bracket_steps
    pub normal_max : d.normal_bracket_steps ≤ 10
    pub match_min : 1 ≤ d.match_bracket_steps
    pub match_max : d.match_bracket_steps ≤ 10

clamp_steps-range : (n : ℕ) → (1 ≤ clamp_steps n) × (clamp_steps n ≤ 10)
unfolding clamp_steps
clamp_steps-range n = ground arith

clamp_steps-id : (n : ℕ) → 1 ≤ n → n ≤ 10 → clamp_steps n ≡ n
unfolding clamp_steps
clamp_steps-id n lo hi = ground (arith, lo, hi)

module _ {F : Type 0} where
  init-InRange : (mode : ℕ) (c : Config F) → InRange (charge_mode_config_init mode c).charge
  unfolding charge_mode_config_init
  init-InRange mode c =
      let n = clamp_steps-range c.charge.normal_bracket_steps in
      let m = clamp_steps-range c.charge.match_bracket_steps in
      record { normal_min = n.0; normal_max = n.1; match_min = m.0; match_max = m.1 }

  same_steps :
      (d d' : ChargeData F)
      → d'.normal_bracket_steps ≡ d.normal_bracket_steps
      → d'.match_bracket_steps ≡ d.match_bracket_steps
      → InRange d
      → InRange d'
  same_steps d d' n m h = record {
    normal_min = omega (arith, n, h.normal_min);
    normal_max = omega (arith, n, h.normal_max);
    match_min = omega (arith, m, h.match_min);
    match_max = omega (arith, m, h.match_max);
  }

  module _ (r : Readers F) where
    edit-InRange :
        (k : Key) (v : List ℕ) (c : Config F) (save : Bool)
        → InRange c.charge
        → InRange (edit r k v c save).0.charge
    unfolding edit
    edit-InRange c5 v c save h = same_steps c.charge (edit r c5 v c save).0.charge refl refl h
    edit-InRange c6 v c save h = h
    edit-InRange c7 v c save h = same_steps c.charge (edit r c7 v c save).0.charge refl refl h
    edit-InRange c8 v c save h = same_steps c.charge (edit r c8 v c save).0.charge refl refl h
    edit-InRange c9 v c save h = h
    edit-InRange c10 v c save h = same_steps c.charge (edit r c10 v c save).0.charge refl refl h
    edit-InRange c11 v c save h = same_steps c.charge (edit r c11 v c save).0.charge refl refl h
    edit-InRange c12 v c save h = same_steps c.charge (edit r c12 v c save).0.charge refl refl h
    edit-InRange c13 v c save h = same_steps c.charge (edit r c13 v c save).0.charge refl refl h
    edit-InRange c14 v c save h = same_steps c.charge (edit r c14 v c save).0.charge refl refl h
    edit-InRange c15 v c save h = same_steps c.charge (edit r c15 v c save).0.charge refl refl h
    edit-InRange c16 v c save h = same_steps c.charge (edit r c16 v c save).0.charge refl refl h
    edit-InRange c17 v c save h = h
    edit-InRange c18 v c save h = same_steps c.charge (edit r c18 v c save).0.charge refl refl h
    edit-InRange c19 v c save h =
        let n = clamp_steps-range (r.atoi v % 256) in
        record {
          normal_min = n.0;
          normal_max = n.1;
          match_min = h.match_min;
          match_max = h.match_max;
        }
    edit-InRange c20 v c save h =
        let m = clamp_steps-range (r.atoi v % 256) in
        record {
          normal_min = h.normal_min;
          normal_max = h.normal_max;
          match_min = m.0;
          match_max = m.1;
        }
    edit-InRange c21 v c save h = same_steps c.charge (edit r c21 v c save).0.charge refl refl h
    edit-InRange c22 v c save h = same_steps c.charge (edit r c22 v c save).0.charge refl refl h
    edit-InRange c23 v c save h = same_steps c.charge (edit r c23 v c save).0.charge refl refl h
    edit-InRange c24 v c save h = same_steps c.charge (edit r c24 v c save).0.charge refl refl h
    edit-InRange c25 v c save h = same_steps c.charge (edit r c25 v c save).0.charge refl refl h
    edit-InRange c26 v c save h = same_steps c.charge (edit r c26 v c save).0.charge refl refl h
    edit-InRange c1 v c save h = h
    edit-InRange c2 v c save h = h
    edit-InRange c3 v c save h = h
    edit-InRange c4 v c save h = h
    edit-InRange ee v c save h = h
    edit-InRange other v c save h = h

    edit_all-InRange :
        (ps : List Param) (c : Config F) (save : Bool)
        → InRange c.charge
        → InRange (edit_all r ps c save).0.charge
    unfolding edit_all
    edit_all-InRange [] c save h = h
    edit_all-InRange (p ∷ ps) c save h =
        let e = edit r p.key p.value c save in
        edit_all-InRange ps e.0 e.1 (edit-InRange p.key p.value c save h)

    -- The settings behind a load and any requests, in order.
    unfoldable pub configured : ℕ → Config F → List (List Param) → Config F
    unfolding charge_mode_config_init http_rest_charge_mode_config
    configured mode loaded [] = charge_mode_config_init mode loaded
    configured mode loaded (ps ∷ pss) =
        (http_rest_charge_mode_config r ps (configured mode loaded pss)).0

    configured-InRange :
        (mode : ℕ) (loaded : Config F) (pss : List (List Param))
        → InRange (configured mode loaded pss).charge
    unfolding configured http_rest_charge_mode_config
    configured-InRange mode loaded [] = init-InRange mode loaded
    configured-InRange mode loaded (ps ∷ pss) =
        edit_all-InRange ps (configured mode loaded pss) false (configured-InRange mode loaded pss)

-- The steps of the mode in use.
abbrev pub active_steps : {F : Type 0} → ChargeData F → ℕ
active_steps d = elim d.bracket_mode [
  | match_mode ↦ d.match_bracket_steps
  | normal ↦ d.normal_bracket_steps
]

module _ {F : Type 0} ⦃fl : Floats F⦄ where
  bracket-InRange :
      (d : ChargeData F)
      → InRange d
      → (charge_mode_get_active_bracket d ≡ of_nat (active_steps d) * lit 2 2)
        × (1 ≤ active_steps d)
        × (active_steps d ≤ 10)
  unfolding charge_mode_get_active_bracket
  bracket-InRange d h = ground (
    arith,
    h.normal_min,
    h.normal_max,
    h.match_min,
    h.match_max,
    clamp_steps-id d.normal_bracket_steps h.normal_min h.normal_max,
    clamp_steps-id d.match_bracket_steps h.match_min h.match_max,
  )

  -- Whatever bytes were loaded and whatever requests followed, the bracket in use is 1 to 10 steps of
  -- 0.02 grains, those stored for the mode in use: no clamping takes place when it is read.
  pub bracket-configured :
      (r : Readers F) (mode : ℕ) (loaded : Config F) (pss : List (List Param))
      → let d = (configured r mode loaded pss).charge in
        (charge_mode_get_active_bracket d ≡ of_nat (active_steps d) * lit 2 2)
        × (1 ≤ active_steps d)
        × (active_steps d ≤ 10)
  bracket-configured r mode loaded pss =
      bracket-InRange (configured r mode loaded pss).charge (configured-InRange r mode loaded pss)
