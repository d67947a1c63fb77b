-- ===== src/ChargeMode/Learn/Bounds.antt =====
-- The handoff, as the learner stores it and as the charge uses it.
use open_trickler_rp2040_con.Prelude.{
  ℕ, ◌≡◌, refl, ◌⊎◌, inl, inr, true, false, not, leb, if-holds, Option, none, some, get_elem?,
  arith,
}
use open_trickler_rp2040_con.Float.{Floats, lit, ◌*◌, lt}
use open_trickler_rp2040_con.Profile.{Profile}
use open_trickler_rp2040_con.Tuner.State.{Tuner}
use open_trickler_rp2040_con.Tuner.Knob.{handoff_range}
use open_trickler_rp2040_con.Tuner.Observe.{unusable}
use open_trickler_rp2040_con.Tuner.Limits.{Irreflexive, Within, handoff_bounded}
use open_trickler_rp2040_con.ChargeMode.State.{ChargeData, handoff_max_frac, handoff_for_target}
use open_trickler_rp2040_con.ChargeMode.World.{Machine, profile_get_selected}
use open_trickler_rp2040_con.ChargeMode.Learn.{
  Landed, env_of, obs_of, params_of, tune, with_both, learn_post_throw,
}

-- Of two numbers, at most one is below the other.
abbrev pub Asymmetric : {F : Type 0} → Floats F → Type 0
Asymmetric {F} fl = (x y : F) → fl.single.lt x y ≡ true → fl.single.lt y x ≡ false

with_both-holds :
    {A B M : Type 0} (P : M → Type 0) (f : A → B → M) (m : M) (a : Option A) (b : Option B)
    → P m
    → ((x : A) (y : B) → P (f x y))
    → P (with_both f m a b)
with_both-holds P f m none b hm hf = hm
with_both-holds P f m (some x) none hm hf = hm
with_both-holds P f m (some x) (some y) hm hf = hf x y

module _ {F : Type 0} ⦃fl : Floats F⦄ where
  open fl use {D}

  -- Where half the target is above zero, the handoff in use is neither below zero nor above half the
  -- target in the floats' `<`, whatever is stored (a stored NaN is neither, and is used as it is). The
  -- floats' `<` is irreflexive and asymmetric.
  pub handoff_for_target-Within :
      Irreflexive fl
      → Asymmetric fl
      → (c : ChargeData F) (target : F) → lt (lit 0 0) (handoff_max_frac * target) ≡ true
      → Within (lit 0 0) (handoff_max_frac * target) (handoff_for_target c target)
  unfolding handoff_for_target
  handoff_for_target-Within irr asym c target pos =
      let cap = handoff_max_frac * target in
      ground (arith, pos, irr cap, irr (lit 0 0), asym (lit 0 0) cap pos)

  -- What learn_post_throw leaves: the machine as it was, or a handoff in the tuner's range.
  abbrev pub Learned : F → Machine F D → Machine F D → Type 0
  Learned bracket m m' =
      let (lo, hi) = handoff_range (env_of m bracket) in
      (m' ≡ m) ⊎ Within lo hi m'.settings.coarse_stop_threshold

  tune-Learned :
      Irreflexive fl
      → (x : Landed F) (t : Tuner F) (p : Profile F) (i : ℕ) (m : Machine F D)
      → unusable (env_of m x.bracket) (obs_of m x) ≡ false
      → lt (lit 0 0) (handoff_range (env_of m x.bracket)).1 ≡ true
      → Learned x.bracket m (tune x t p i m)
  unfolding tune
  tune-Learned irr x t p i m usable pos = inr (
      handoff_bounded irr t (env_of m x.bracket) (obs_of m x)
        (params_of p m.settings.coarse_stop_threshold) usable pos)

  -- Behind every throw that the tuner can use, if its range's upper end is positive: the machine is
  -- untouched, or the stored handoff is neither below the lower nor above the upper end of the range that
  -- the tuner derives from the machine's target, settings and learn configuration; in the floats' `<`,
  -- which is irreflexive, and by which a stored NaN, which the tuner keeps, is neither.
  pub learn_post_throw-Learned :
      Irreflexive fl
      → (i : ℕ) (x : Landed F) (m : Machine F D)
      → unusable (env_of m x.bracket) (obs_of m x) ≡ false
      → lt (lit 0 0) (handoff_range (env_of m x.bracket)).1 ≡ true
      → Learned x.bracket m (learn_post_throw i x m)
  unfolding learn_post_throw
  learn_post_throw-Learned irr i x m usable pos =
      let P : Machine F D → Type 0 = Learned x.bracket m in
      if-holds P (not m.settings.learn_enable) (inl refl) (
        if-holds P m.learn_tuning_suppressed (inl refl) (
          if-holds P (leb 8 i) (inl refl) (
            with_both-holds P (λ t p. tune x t p i m) m (get_elem? m.learn_tuner i)
              (profile_get_selected m.profile_data) (inl refl)
              (λ t p. tune-Learned irr x t p i m usable pos))))
