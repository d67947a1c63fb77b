-- ===== src/Tuner/Knob.antt =====
-- Hard limits and knobs of learn_tuner.c: clamp_params, anchor_to, all_done, is_risky, apply_knob.
use open_trickler_rp2040_con.Prelude.{
  ℕ, zero, suc, Bool, true, false, ◌&&◌, ◌==◌, if◌then◌else◌, List, [], ◌∷◌, get_or,
}
use open_trickler_rp2040_con.Prelude.Int.{ℤ, pos, is_neg, is_pos}
use open_trickler_rp2040_con.Float.{Floats, lit, ◌-◌, ◌*◌, ◌/◌, lt, fabs, fmaxf}
use open_trickler_rp2040_con.Tuner.State.{Params, Env, Tuner, measuring, tuner_init, knobs}
use open_trickler_rp2040_con.Tuner.Arm.{policy_for, clampf}

abbrev pub knob_handoff : ℕ
knob_handoff = 0

abbrev pub knob_fine_kp : ℕ
knob_fine_kp = 1

abbrev pub knob_coarse_max : ℕ
knob_coarse_max = 2

abbrev pub knob_coarse_taper : ℕ
knob_coarse_taper = 3

unfoldable pub is_risky : ℕ → ℤ → Bool
is_risky knob dir =
    if knob == knob_handoff
    then is_neg dir
    else if knob == knob_fine_kp
    then is_pos dir
    else is_pos dir

-- The loop of all_done, from knob k with n knobs to go.
unfoldable pub all_done_from : ℕ → ℕ → List Bool → Bool
all_done_from zero k done = true
all_done_from (suc n) k done = get_or done k false && all_done_from n (suc k) done

module _ {F : Type 0} ⦃fl : Floats F⦄ where
  unfoldable pub all_done : Tuner F → Bool
  unfolding all_done_from
  all_done t = all_done_from knobs 0 t.done

  -- The fine tube's lines of clamp_params.
  unfoldable pub clamp_fine : Params F → F → Params F → Params F
  unfolding clampf
  clamp_fine a bm p =
      let kp =
        if lt (lit 0 0) a.fine_kp
        then clampf p.fine_kp (lit 4 1 * a.fine_kp) (lit 30 1 * bm * a.fine_kp)
        else p.fine_kp in
      let fmin =
        if lt (lit 0 0) a.fine_min
        then clampf p.fine_min (lit 5 1 * a.fine_min) (lit 20 1 * bm * a.fine_min)
        else p.fine_min in
      record p { fine_kp = kp; fine_min = if lt p.fine_max fmin then p.fine_max else fmin }

  -- The range of coarse_max, `lo` and `hi`.
  unfoldable pub coarse_range : Params F → Env F → F → F × F
  coarse_range a env bm =
      let full = lit 20 1 * bm * a.coarse_max in
      let hi =
        if lt (lit 0 0) env.coarse_motor_cap && lt env.coarse_motor_cap full
        then env.coarse_motor_cap
        else full in
      let lo = lit 5 1 * a.coarse_max in (if lt hi lo then hi else lo, hi)

  -- The block on coarse_max: the taper window is kept when the clamp moved the speed.
  unfoldable pub clamp_coarse_max : Params F → Env F → F → Params F → Params F
  unfolding clampf coarse_range
  clamp_coarse_max a env bm p =
      let (lo, hi) = coarse_range a env bm in
      let before = p.coarse_max in
      let now = clampf p.coarse_max lo hi in
      let moved = lt (lit 0 0) before && lt (lit 1 6) (fabs (now - before)) in
      let kp = if moved then p.coarse_kp * (now / before) else p.coarse_kp in
      if lt (lit 0 0) a.coarse_max then record p { coarse_max = now; coarse_kp = kp } else p

  -- The lines on coarse_kp and coarse_min.
  unfoldable pub clamp_coarse_rest : Params F → Env F → Params F → Params F
  unfolding clampf
  clamp_coarse_rest a env p =
      let kp =
        if lt (lit 0 0) a.coarse_kp
        then clampf p.coarse_kp (lit 25 2 * a.coarse_kp) (lit 120 1 * a.coarse_kp)
        else p.coarse_kp in
      let cmin =
        if lt p.coarse_min env.coarse_motor_min then env.coarse_motor_min else p.coarse_min in
      record p { coarse_kp = kp; coarse_min = if lt p.coarse_max cmin then p.coarse_max else cmin }

  -- The range of the handoff, `h_lo` and `h_hi`.
  unfoldable pub handoff_range : Env F → F × F
  handoff_range env =
      let hi = env.handoff_cap_frac * env.target in
      let floor = if lt (lit 0 0) env.handoff_floor_gr then env.handoff_floor_gr else lit 30 2 in
      let lo = fmaxf floor env.coarse_sd_floor_gr in (if lt hi lo then hi else lo, hi)

  unfoldable pub clamp_handoff : Env F → Params F → Params F
  unfolding clampf handoff_range
  clamp_handoff env p =
      let (lo, hi) = handoff_range env in
      if lt (lit 0 0) hi then record p { handoff = clampf p.handoff lo hi } else p

  unfoldable pub clamp_params : Tuner F → Env F → Params F → Params F
  unfolding clamp_fine clamp_coarse_max clamp_coarse_rest clamp_handoff policy_for
  clamp_params t env p =
      let a = t.anchor in
      let bm = (policy_for env).bound_mul in
      clamp_handoff env (clamp_coarse_rest a env (clamp_coarse_max a env bm (clamp_fine a bm p)))

  unfoldable pub anchor_to : Params F → Tuner F
  unfolding tuner_init
  anchor_to p = record tuner_init {
    init = true;
    anchor = p;
    good = p;
    seen = p;
    mode = measuring;
    dir = pos 1 ∷ pos 1 ∷ pos 1 ∷ pos 1 ∷ [];
    step = lit 25 2 ∷ lit 20 2 ∷ lit 12 2 ∷ lit 40 2 ∷ [];
  }

  unfoldable pub apply_knob : Params F → ℕ → F → Params F
  apply_knob p knob factor =
      let now = p.coarse_max * factor in
      let kp =
        if lt (lit 0 0) p.coarse_max then p.coarse_kp * (now / p.coarse_max) else p.coarse_kp in
      if knob == knob_handoff
      then record p { handoff = p.handoff * factor }
      else if knob == knob_fine_kp
      then record p { fine_kp = p.fine_kp * factor }
      else if knob == knob_coarse_taper
      then record p { coarse_kp = p.coarse_kp * factor }
      else record p { coarse_max = now; coarse_kp = kp }
