-- ===== src/Tuner/Limits.antt =====
-- What the hard limits of clamp_params promise for every profile that tuner_observe leaves. An order
-- is stated as the comparison that the code makes: `lt y x ≡ false` is "x is not above y".
use open_trickler_rp2040_con.Prelude.{◌≡◌, refl, ◌⊎◌, true, false, arith}
use open_trickler_rp2040_con.Float.{Floats, lit, ◌*◌, lt, is_finite}
use open_trickler_rp2040_con.Tuner.State.{Params, Env, Obs, Tuner}
use open_trickler_rp2040_con.Tuner.Arm.{clampf, policy_for}
use open_trickler_rp2040_con.Tuner.Knob.{
  clamp_fine, coarse_range, clamp_coarse_max, clamp_coarse_rest, handoff_range, clamp_handoff,
  clamp_params,
}
use open_trickler_rp2040_con.Tuner.Observe.{
  admit_edit, record_throw, dispatch, settle, unusable, tuner_observe,
}

-- `x < x` is false of every float, NaN included.
abbrev pub Irreflexive : {F : Type 0} → Floats F → Type 0
Irreflexive {F} fl = (x : F) → fl.single.lt x x ≡ false

-- Where `x < z` holds, a number `y` that is finite lies above `x` or below `z`.
abbrev pub Splits : {F : Type 0} → Floats F → Type 0
Splits {F} fl =
    (x y z : F)
    → fl.single.is_finite y ≡ true
    → fl.single.lt x z ≡ true
    → (fl.single.lt x y ≡ true) ⊎ (fl.single.lt y z ≡ true)

module _ {F : Type 0} ⦃fl : Floats F⦄ where
  -- `v` is neither below `lo` nor above `hi`.
  abbrev pub Within : F → F → F → Type 0
  Within lo hi v = (lt v lo ≡ false) × (lt hi v ≡ false)

  -- A clamped value lies in the range, where the range is not upside down.
  clampf_bounds : Irreflexive fl → (v lo hi : F) → lt hi lo ≡ false → Within lo hi (clampf v lo hi)
  unfolding clampf
  clampf_bounds irr v lo hi h = ground (arith, irr lo, irr hi)

  coarse_range_ordered :
      Irreflexive fl
      → (a : Params F) (env : Env F) (bm : F)
      → lt (coarse_range a env bm).1 (coarse_range a env bm).0 ≡ false
  unfolding coarse_range
  coarse_range_ordered irr a env bm = ground (arith, irr (coarse_range a env bm).1)

  handoff_range_ordered :
      Irreflexive fl → (env : Env F) → lt (handoff_range env).1 (handoff_range env).0 ≡ false
  unfolding handoff_range
  handoff_range_ordered irr env = ground (arith, irr (handoff_range env).1)

  -- The bulk speed's part of clamp_params, whatever the later lines do.
  coarse_max-clamp_params :
      Irreflexive fl
      → (t : Tuner F) (env : Env F) (p : Params F) → lt (lit 0 0) t.anchor.coarse_max ≡ true
      → let (lo, hi) = coarse_range t.anchor env (policy_for env).bound_mul in
        Within lo hi (clamp_params t env p).coarse_max
  unfolding clamp_params
  coarse_max-clamp_params irr t env p h =
      let r = coarse_range t.anchor env (policy_for env).bound_mul in
      let q = clamp_fine t.anchor (policy_for env).bound_mul p in
      ground (
        arith,
        clampf_bounds irr q.coarse_max r.0 r.1
            (coarse_range_ordered irr t.anchor env (policy_for env).bound_mul),
      )

  handoff-clamp_handoff :
      Irreflexive fl
      → (env : Env F) (p : Params F) → lt (lit 0 0) (handoff_range env).1 ≡ true
      → let (lo, hi) = handoff_range env in Within lo hi (clamp_handoff env p).handoff
  unfolding clamp_handoff
  handoff-clamp_handoff irr env p h =
      let r = handoff_range env in
      ground (arith, clampf_bounds irr p.handoff r.0 r.1 (handoff_range_ordered irr env))

  fine-clamp_fine :
      Irreflexive fl
      → (a : Params F) (bm : F) (p : Params F)
      → let q = clamp_fine a bm p in lt q.fine_max q.fine_min ≡ false
  unfolding clamp_fine
  fine-clamp_fine irr a bm p = ground (arith, irr p.fine_max)

  coarse-clamp_coarse_rest :
      Irreflexive fl
      → (a : Params F) (env : Env F) (p : Params F)
      → let q = clamp_coarse_rest a env p in lt q.coarse_max q.coarse_min ≡ false
  unfolding clamp_coarse_rest
  coarse-clamp_coarse_rest irr a env p = ground (arith, irr p.coarse_max)

  -- The later lines of clamp_params leave the fine tube's speeds alone.
  fine_kept :
      (a : Params F) (env : Env F) (bm : F) (p : Params F)
      → let q = clamp_handoff env (clamp_coarse_rest a env (clamp_coarse_max a env bm p)) in
        (q.fine_max ≡ p.fine_max) × (q.fine_min ≡ p.fine_min)
  unfolding clamp_handoff clamp_coarse_rest clamp_coarse_max
  fine_kept a env bm p = ground arith

  coarse_kept :
      (env : Env F) (p : Params F)
      → let q = clamp_handoff env p in (q.coarse_max ≡ p.coarse_max) × (q.coarse_min ≡ p.coarse_min)
  unfolding clamp_handoff
  coarse_kept env p = ground arith

  min_le_max-clamp_params :
      Irreflexive fl
      → (t : Tuner F) (env : Env F) (p : Params F)
      → let q = clamp_params t env p in
        (lt q.fine_max q.fine_min ≡ false) × (lt q.coarse_max q.coarse_min ≡ false)
  unfolding clamp_params
  min_le_max-clamp_params irr t env p =
      let a = t.anchor in
      let bm = (policy_for env).bound_mul in
      let q = clamp_fine a bm p in
      let r = clamp_coarse_rest a env (clamp_coarse_max a env bm q) in
      let (max, min) = fine_kept a env bm q in
      let (cmax, cmin) = coarse_kept env r in
      (
        rw (max, min) (fine-clamp_fine irr a bm p),
        rw (cmax, cmin) (coarse-clamp_coarse_rest irr a env (clamp_coarse_max a env bm q)),
      )

  -- What the last lines of tuner_observe are given.
  abbrev pub before_settle : Tuner F → Env F → Obs F → Params F → Tuner F × Params F
  before_settle t env obs p =
      let a = admit_edit t p in let r = record_throw a.0 env obs in dispatch r.mode r env obs a.1

  pub tuner_observe-eq-settle :
      (t : Tuner F) (env : Env F) (obs : Obs F) (p : Params F)
      → unusable env obs ≡ false
      → let d = before_settle t env obs p in tuner_observe t env obs p ≡ settle d.0 env d.1
  unfolding tuner_observe
  tuner_observe-eq-settle t env obs p h = rw h

  pub live_profile :
      (t : Tuner F) (env : Env F) (obs : Obs F) (p : Params F)
      → unusable env obs ≡ false
      → let d = before_settle t env obs p in
        let (t', p') = tuner_observe t env obs p in
        (t'.anchor ≡ d.0.anchor) × (p' ≡ clamp_params t' env d.1)
  unfolding settle clamp_params
  live_profile t env obs p h = rw (tuner_observe-eq-settle t env obs p h) (refl, refl)

  -- After every usable throw, if the anchored bulk speed is positive, the bulk speed lies between the
  -- two ends of `coarse_range`: half the anchored speed, and the policy's multiple of it or the motor's
  -- cap where that is lower (both ends are the cap where half the speed is above it).
  coarse_speed_bounded :
      (irr : Irreflexive fl) (t : Tuner F) (env : Env F) (obs : Obs F) (p : Params F)
      → unusable env obs ≡ false
      → let (t', p') = tuner_observe t env obs p in
        lt (lit 0 0) t'.anchor.coarse_max ≡ true
        → let (lo, hi) = coarse_range t'.anchor env (policy_for env).bound_mul in
          Within lo hi p'.coarse_max
  coarse_speed_bounded irr t env obs p h pos = rw ((live_profile t env obs p h).1) (
      coarse_max-clamp_params irr (tuner_observe t env obs p).0 env (before_settle t env obs p).1
        pos)

  cap_of_range :
      Irreflexive fl
      → Splits fl
      → (a : Params F) (env : Env F) (bm v : F) → lt (lit 0 0) env.coarse_motor_cap ≡ true
      → is_finite (lit 20 1 * bm * a.coarse_max) ≡ true
      → lt (coarse_range a env bm).1 v ≡ false
      → lt env.coarse_motor_cap v ≡ false
  unfolding coarse_range
  cap_of_range irr split a env bm v pos fin h =
      ground (arith, split env.coarse_motor_cap (lit 20 1 * bm * a.coarse_max) v)

  -- After every usable throw the bulk speed is not above the motor's cap, if a cap is set, the anchored
  -- bulk speed is positive and the policy's multiple of it is finite.
  pub motor_cap_respected :
      (irr : Irreflexive fl) (split : Splits fl) (t : Tuner F) (env : Env F) (obs : Obs F)
      (p : Params F)
      → unusable env obs ≡ false
      → lt (lit 0 0) env.coarse_motor_cap ≡ true
      → let (t', p') = tuner_observe t env obs p in
        lt (lit 0 0) t'.anchor.coarse_max ≡ true
        → is_finite (lit 20 1 * (policy_for env).bound_mul * t'.anchor.coarse_max) ≡ true
        → lt env.coarse_motor_cap p'.coarse_max ≡ false
  motor_cap_respected irr split t env obs p h cap pos fin =
      let (t', p') = tuner_observe t env obs p in
      cap_of_range irr split t'.anchor env (policy_for env).bound_mul p'.coarse_max cap fin
        (coarse_speed_bounded irr t env obs p h pos).1

  -- After every usable throw the handoff lies in its range, if the upper end is positive: the floor
  -- (the set one or 0.30, and at least the measured stop scatter) and the share of the charge that the
  -- bulk may leave.
  pub handoff_bounded :
      (irr : Irreflexive fl) (t : Tuner F) (env : Env F) (obs : Obs F) (p : Params F)
      → unusable env obs ≡ false
      → lt (lit 0 0) (handoff_range env).1 ≡ true
      → let (lo, hi) = handoff_range env in Within lo hi (tuner_observe t env obs p).1.handoff
  unfolding clamp_params
  handoff_bounded irr t env obs p h pos =
      let a = (tuner_observe t env obs p).0.anchor in
      let bm = (policy_for env).bound_mul in
      let q = clamp_fine a bm (before_settle t env obs p).1 in
      rw ((live_profile t env obs p h).1)
        (handoff-clamp_handoff irr env (clamp_coarse_rest a env (clamp_coarse_max a env bm q)) pos)

  -- After every usable throw neither tube's least speed is above its greatest.
  speeds_ordered :
      (irr : Irreflexive fl) (t : Tuner F) (env : Env F) (obs : Obs F) (p : Params F)
      → unusable env obs ≡ false
      → let q = (tuner_observe t env obs p).1 in
        (lt q.fine_max q.fine_min ≡ false) × (lt q.coarse_max q.coarse_min ≡ false)
  speeds_ordered irr t env obs p h =
      rw ((live_profile t env obs p h).1) (
        min_le_max-clamp_params irr (tuner_observe t env obs p).0 env (before_settle t env obs p).1)
