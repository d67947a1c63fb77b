-- ===== src/Tuner/Observe.antt =====
-- One finished throw in learn_tuner.c: nudge_for_over, landing_law and tuner_observe.
use Prim.Native.Nat.{◌+◌ as nat_add, ◌*◌ as nat_mul, ◌-◌ as nat_sub, ◌%◌, ◌^◌}
use open_trickler_rp2040_con.Prelude.{
  Bool, true, false, not, ◌&&◌, ◌||◌, ltb, leb, ◌==◌, if◌then◌else◌, set, inc8, inc16,
}
use open_trickler_rp2040_con.Float.{
  Floats, lit, neg, ◌+◌, ◌-◌, ◌*◌, ◌/◌, lt, le, fabs, powf, fmaxf, fminf, is_finite,
}
use open_trickler_rp2040_con.Tuner.State.{
  Params, Env, Obs, ThrowResult, pass, over, Tuner, Mode, measuring, probing, converged, arm_reset,
  arm_n, monitor_n, err_window, err_min_n,
}
use open_trickler_rp2040_con.Tuner.Arm.{
  policy_for, clampf, params_differ, recent_misses, arm_add, arm_mean,
}
use open_trickler_rp2040_con.Tuner.Window.{window_stats}
use open_trickler_rp2040_con.Tuner.Knob.{
  clamp_params, anchor_to, all_done, apply_knob, knob_coarse_max,
}
use open_trickler_rp2040_con.Tuner.Probe.{start_probe, finish_probe, reopen_search, enter_monitor}

abbrev pub is_pass : ThrowResult → Bool
is_pass pass = true
is_pass _ = false

abbrev pub is_over : ThrowResult → Bool
is_over over = true
is_over _ = false

abbrev pub is_probing : Mode → Bool
is_probing probing = true
is_probing _ = false

module _ {F : Type 0} ⦃fl : Floats F⦄ where
  -- The knobs that nudge_for_over backs off.
  unfoldable pub nudged : Env F → Obs F → Params F → Params F
  nudged env obs p =
      let q = apply_knob p knob_coarse_max (lit 92 2) in
      if obs.coarse_ran_long
      then record q {
        coarse_min = fmaxf env.coarse_motor_min (q.coarse_min * lit 85 2);
        handoff = q.handoff * lit 115 2;
      }
      else record p { fine_min = p.fine_min * lit 85 2; fine_kp = p.fine_kp * lit 92 2 }

  unfoldable pub nudge_for_over : Tuner F → Env F → Obs F → Params F → Tuner F × Params F
  unfolding nudged
  nudge_for_over t env obs p =
      let p' = clamp_params t env (nudged env obs p) in
      (record t { good = p'; base = arm_reset }, p')

  -- The ratio of landing_law: the margin over the one asked for.
  unfoldable pub landing_ratio : Env F → F → F → F
  landing_ratio env mean sd =
      let reach = fmaxf (lit 0 0) (env.bracket - fminf (fabs mean) (lit 25 2 * env.bracket)) in
      reach / sd / env.land_sigma

  -- The last lines of landing_law: the landing speed moves by part of the ratio.
  unfoldable pub landing_step : Tuner F → Env F → F → Params F → Tuner F × Params F
  landing_step t env ratio p =
      let factor = clampf (powf ratio (lit 6 1)) (lit 10 1 / lit 125 2) (lit 125 2) in
      let p' = clamp_params t env (record p { fine_min = p.fine_min * factor }) in
      let good = record (t.good) { fine_min = p'.fine_min } in
      let moved = lt (lit 5 2) (fabs (p'.fine_min / p.fine_min - lit 10 1)) in
      let stale = lt (lit 0 0) p.fine_min && moved in
      (record t { good = good; base = if stale then arm_reset else t.base }, p')

  -- The pace of landing_law: `none` is a throw on which the interval has not passed.
  unfoldable pub landing_pace : Tuner F → F → Bool
  landing_pace t ratio = ltb (inc8 t.land_tick) (if lt ratio (lit 70 2) then 3 else 6)

  unfoldable pub landing_law : Tuner F → Env F → Params F → Tuner F × Params F
  unfolding landing_pace landing_step
  landing_law t env p =
      let (mean, sd) = window_stats t env.bracket in
      let ratio = landing_ratio env mean sd in
      let ticked = record t { land_tick = inc8 t.land_tick } in
      let due = record t { land_tick = 0 } in
      if ltb t.err_count err_min_n || le env.land_sigma (lit 0 0)
      then (t, p)
      else if le sd (lit 1 4)
      then (t, p)
      else if landing_pace t ratio
      then (ticked, p)
      else if le ratio (lit 115 2) && le (lit 10 1 / lit 115 2) ratio
      then (due, p)
      else landing_step due env ratio p

  -- One field of an outside edit during a probe: an untouched field goes back to the accepted value.
  abbrev pub put_back : F → F → F → F
  put_back now seen good = if le (fabs (now - seen)) (lit 1 4) then good else now

  unfoldable pub merge_edit : Tuner F → Params F → Params F
  merge_edit t p = record {
    fine_max = put_back p.fine_max t.seen.fine_max t.good.fine_max;
    fine_min = put_back p.fine_min t.seen.fine_min t.good.fine_min;
    fine_kp = put_back p.fine_kp t.seen.fine_kp t.good.fine_kp;
    coarse_max = put_back p.coarse_max t.seen.coarse_max t.good.coarse_max;
    coarse_min = put_back p.coarse_min t.seen.coarse_min t.good.coarse_min;
    coarse_kp = put_back p.coarse_kp t.seen.coarse_kp t.good.coarse_kp;
    handoff = put_back p.handoff t.seen.handoff t.good.handoff;
  }

  -- The lines of tuner_observe on an outside edit, and the re-anchoring that follows.
  unfoldable pub admit_edit : Tuner F → Params F → Tuner F × Params F
  unfolding merge_edit
  admit_edit t p =
      let edited = t.init && (is_probing t.mode && params_differ p t.seen) in
      let p' = if edited then merge_edit t p else p in
      if not t.init || params_differ p' t.seen then (anchor_to p', p') else (t, p')

  -- The aim trim, once the window holds enough samples.
  unfoldable pub trim_step : Tuner F → Env F → Tuner F
  trim_step t env =
      let (mean, sd) = window_stats t env.bracket in
      let limit = lit 50 2 * env.bracket in
      if leb err_min_n t.err_count
      then record t { trim_gr = clampf (t.trim_gr - lit 15 2 * mean) (neg limit) limit }
      else t

  -- The landing error window, the trim and the miss history take the throw in.
  unfoldable pub record_throw : Tuner F → Env F → Obs F → Tuner F
  unfolding trim_step
  record_throw t env obs =
      let t' =
        trim_step
          (record t {
            throws = inc16 t.throws;
            err = set t.err t.err_next obs.error_gr;
            err_next = nat_add t.err_next 1 % err_window;
            err_count = if ltb t.err_count err_window then inc8 t.err_count else t.err_count;
          })
          env in
      record t' {
        miss_bits = nat_add (nat_mul t'.miss_bits 2 % 2 ^ 32) (if is_pass obs.result then 0 else 1);
      }

  unfoldable pub cluster : Tuner F → Obs F → Bool
  cluster t obs = is_over obs.result && leb 3 (recent_misses t 10)

  -- `if (obs->result == TUNER_THROW_PASS) landing_law(t, env, p);` on a throw added to the baseline.
  unfoldable pub add_to_base : Tuner F → Env F → Obs F → Params F → Tuner F × Params F
  add_to_base t env obs p =
      let t' = record t {
        base = arm_add t.base obs.total_s obs.error_gr (not (is_pass obs.result));
      } in
      if is_pass obs.result then landing_law t' env p else (t', p)

  -- The end of the measuring case: a full baseline starts a probe.
  unfoldable pub try_probe : Tuner F → Env F → Params F → Tuner F × Params F
  try_probe t env p =
      let (started, t', p') = start_probe t env p in
      if leb arm_n t.base.n && t.wait == 0
      then (if started
          then (t', p')
          else if all_done t'
          then enter_monitor t' p'
          else (record t' { wait = 4 }, p'))
      else (t, p)

  unfoldable pub on_measuring : Tuner F → Env F → Obs F → Params F → Tuner F × Params F
  on_measuring t env obs p =
      let (nudged_t, nudged_p) = nudge_for_over t env obs p in
      let (t', p') = add_to_base t env obs p in
      if cluster t obs
      then (record nudged_t { miss_bits = 0 }, nudged_p)
      else try_probe (record t' { wait = nat_sub t'.wait 1 }) env p'

  unfoldable pub on_probing : Tuner F → Env F → Obs F → Params F → Tuner F × Params F
  on_probing t env obs p =
      let arm = arm_add t.trial obs.total_s obs.error_gr (not (is_pass obs.result)) in
      let reject_misses = (policy_for env).reject_misses in
      let gross = is_over obs.result && lt (lit 20 1 * env.bracket) obs.error_gr in
      let trial = if gross then record arm { misses = reject_misses } else arm in
      let t' = record t { trial = trial } in
      if leb arm_n trial.n || leb reject_misses trial.misses then finish_probe t' env p else (t', p)

  -- The drift check of the converged case.
  unfoldable pub drift_check : Tuner F → Env F → Params F → Tuner F × Params F
  drift_check t env p =
      let mean_s = arm_mean t.base in
      let backed =
        clamp_params t env
          (record p { handoff = p.handoff * lit 115 2; fine_min = p.fine_min * lit 90 2 }) in
      if ltb t.base.n monitor_n
      then (t, p)
      else if leb 3 t.base.misses
      then (reopen_search (record t { good = backed }), backed)
      else if le t.monitor_ref_s (lit 0 0)
      then (record t { monitor_ref_s = mean_s; base = arm_reset }, p)
      else if lt (lit 115 2 * t.monitor_ref_s + lit 3 1) mean_s
      then (reopen_search (record t { monitor_ref_s = lit 0 0 }), p)
      else (record t { base = arm_reset }, p)

  unfoldable pub on_converged : Tuner F → Env F → Obs F → Params F → Tuner F × Params F
  on_converged t env obs p =
      let (nudged_t, nudged_p) = nudge_for_over t env obs p in
      let (t1, p1) =
        (if cluster t obs then (record nudged_t { miss_bits = 0 }, nudged_p) else (t, p)) in
      let (t2, p2) = add_to_base t1 env obs p1 in drift_check t2 env p2

  -- The `switch` of tuner_observe.
  unfoldable pub dispatch : Mode → Tuner F → Env F → Obs F → Params F → Tuner F × Params F
  unfolding on_measuring on_probing on_converged
  dispatch measuring = on_measuring
  dispatch probing = on_probing
  dispatch converged = on_converged

  -- The last lines of tuner_observe.
  unfoldable pub settle : Tuner F → Env F → Params F → Tuner F × Params F
  settle t env p =
      let p' = clamp_params t env p in
      (record t { good = if is_probing t.mode then t.good else p'; seen = p' }, p')

  -- The early return of tuner_observe.
  abbrev pub unusable : Env F → Obs F → Bool
  unusable env obs =
      not (is_finite obs.total_s) || (not (is_finite obs.error_gr) || le env.bracket (lit 0 0))

  -- The part of tuner_observe behind its early return.
  unfoldable pub observe_usable : Tuner F → Env F → Obs F → Params F → Tuner F × Params F
  unfolding dispatch
  observe_usable t env obs p =
      let (t1, p1) = admit_edit t p in
      let t2 = record_throw t1 env obs in
      let (t3, p3) = dispatch t2.mode t2 env obs p1 in settle t3 env p3

  unfoldable pub tuner_observe : Tuner F → Env F → Obs F → Params F → Tuner F × Params F
  unfolding observe_usable
  tuner_observe t env obs p = if unusable env obs then (t, p) else observe_usable t env obs p
