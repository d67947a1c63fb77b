-- ===== src/Tuner/Probe.antt =====
-- Probes of learn_tuner.c: start_probe, probe_verdict, enter_monitor, reopen_search, finish_probe.
use Prim.Native.Nat.{◌+◌ as nat_add, ◌*◌ as nat_mul, ◌/◌ as nat_div, ◌%◌}
use open_trickler_rp2040_con.Prelude.{
  ◌≡◌, refl, ◌⊎◌, inl, inr, ℕ, zero, suc, Bool, true, false, not, ◌&&◌, ltb, leb, ◌==◌,
  if◌then◌else◌, get_or, set, replicate, inc16,
}
use open_trickler_rp2040_con.Prelude.Int.{pos, neg}
use open_trickler_rp2040_con.Float.{
  Floats, lit, of_nat, of_int, ◌+◌, ◌-◌, ◌*◌, ◌/◌, lt, le, sqrtf, fmaxf, fminf,
}
use open_trickler_rp2040_con.Tuner.State.{
  Params, Env, Arm, Tuner, measuring, probing, converged, arm_reset, arm_n, knobs,
}
use open_trickler_rp2040_con.Tuner.Arm.{
  Policy, policy_for, params_differ, arm_err_rms, arm_mean, arm_var,
}
use open_trickler_rp2040_con.Tuner.Window.{tuner_margin_sigma}
use open_trickler_rp2040_con.Tuner.Knob.{is_risky, all_done, clamp_params, apply_knob}

-- `verdict_t`
pub data Verdict : Type 0 where
  keep revert : Verdict

pub Verdict-cases : (v : Verdict) → (v ≡ keep) ⊎ (v ≡ revert)
Verdict-cases keep = inl refl
Verdict-cases revert = inr refl

module _ {F : Type 0} ⦃fl : Floats F⦄ where
  -- The lines that give up a direction: it turns round, the step shrinks, a small step ends the knob.
  unfoldable pub turn_round : Tuner F → ℕ → Tuner F
  turn_round t k =
      let step = get_or t.step k (lit 0 0) * lit 6 1 in
      record t {
        dir = set t.dir k (neg (get_or t.dir k (pos 0)));
        step = set t.step k step;
        done = if lt step (lit 6 2) then set t.done k true else t.done;
      }

  -- The candidate of the loop of start_probe for knob k.
  unfoldable pub candidate : Tuner F → Env F → ℕ → Params F
  candidate t env k =
      let dir = of_int (get_or t.dir k (pos 0)) in
      let factor = lit 10 1 + dir * get_or t.step k (lit 0 0) * (policy_for env).step_mul in
      clamp_params t env (apply_knob t.good k factor)

  -- A candidate goes live.
  unfoldable pub launch : Tuner F → ℕ → Tuner F
  launch t k = record t { knob = k; trial = arm_reset; mode = probing; probes = inc16 t.probes }

  -- The loop of start_probe with n rounds to go.
  unfoldable pub probe_loop : ℕ → ℕ → Env F → Bool → Tuner F → Params F → Bool × Tuner F × Params F
  probe_loop zero tries env margin_ok t p = (false, t, p)
  probe_loop (suc n) tries env margin_ok t p =
      let k = nat_add t.knob tries % knobs in
      let next = probe_loop n (suc tries) env margin_ok t p in
      let pinned = probe_loop n (suc tries) env margin_ok (turn_round t k) p in
      if get_or t.done k false
      then next
      else if is_risky k (get_or t.dir k (pos 0)) && not margin_ok
      then next
      else if params_differ (candidate t env k) t.good
      then (true, launch t k, candidate t env k)
      else pinned

  -- The first lines of start_probe: the starting throw time is noted once, with a full baseline.
  unfoldable pub note_start : Tuner F → Tuner F
  note_start t =
      if not t.start_known && leb arm_n t.base.n
      then record t {
        start_known = true;
        start_mean_s = arm_mean t.base;
        start_misses = t.base.misses;
      }
      else t

  -- Throws that already meet the time goal need no search.
  unfoldable pub goal_met : Tuner F → Env F → Bool
  goal_met t env =
      (not t.start_known && leb arm_n t.base.n)
      && (lt (lit 0 0) env.time_goal_s && le (arm_mean t.base) env.time_goal_s)

  unfoldable pub start_probe : Tuner F → Env F → Params F → Bool × Tuner F × Params F
  unfolding note_start goal_met
  start_probe t env p =
      let t' = note_start t in
      let margin = tuner_margin_sigma t' env.bracket in
      let margin_ok = le ((policy_for env).risky_margin * env.land_sigma) margin in
      if goal_met t env
      then (false, record t' { done = replicate knobs true; monitor_ref_s = t'.start_mean_s }, p)
      else probe_loop knobs 0 env margin_ok t' p

  unfoldable pub probe_verdict : Arm F → Arm F → F → F → Policy F → Verdict
  probe_verdict base trial margin_sigma land_sigma pol =
      let base_rms = arm_err_rms base in
      let gain = arm_mean base - arm_mean trial in
      let se = sqrtf (arm_var base / of_nat base.n + arm_var trial / of_nat trial.n) in
      let needed = fmaxf pol.min_gain_s (lit 10 1 * se) in
      if leb pol.reject_misses trial.misses
      then revert
      else if (suc trial.misses == pol.reject_misses)
          && (ltb 0 trial.misses && lt margin_sigma (lit 75 2 * land_sigma))
      then revert
      else if lt (lit 1 4) base_rms && lt (lit 130 2 * base_rms) (arm_err_rms trial)
      then revert
      else if lt needed gain
      then keep
      else revert

  -- The test of enter_monitor that sends the original profile back.
  unfoldable pub search_lost : Tuner F → Bool
  search_lost t =
      let now = arm_mean t.base in
      let clearly_faster = lt (lit 40 2) (t.start_mean_s - now) in
      let base_n = if t.base.n == 0 then 1 else t.base.n in
      let no_worse_misses =
        leb (nat_div (nat_mul t.base.misses 100) base_n)
          (nat_add (nat_div (nat_mul t.start_misses 100) arm_n) 10) in
      (t.start_known && (params_differ t.good t.anchor && leb (nat_div arm_n 2) t.base.n))
      && not (clearly_faster && no_worse_misses)

  unfoldable pub enter_monitor : Tuner F → Params F → Tuner F × Params F
  unfolding search_lost
  enter_monitor t p =
      if search_lost t
      then (record t { good = t.anchor; mode = converged; base = arm_reset }, t.anchor)
      else (record t { mode = converged; base = arm_reset }, p)

  unfoldable pub reopen_search : Tuner F → Tuner F
  reopen_search t = record t {
    done = replicate knobs false;
    step = replicate knobs (lit 15 2);
    mode = measuring;
    wait = 0;
    base = arm_reset;
    trial = arm_reset;
  }

  -- `if (all_done(t)) enter_monitor(t, p);`
  unfoldable pub monitor_if_done : Tuner F → Params F → Tuner F × Params F
  unfolding enter_monitor
  monitor_if_done t p = if all_done t then enter_monitor t p else (t, p)

  -- The accepting branch of finish_probe, up to its call of start_probe.
  unfoldable pub accept_trial : Tuner F → Params F → Tuner F
  accept_trial t p = record t {
    last_gain_s = arm_mean t.base - arm_mean t.trial;
    good = p;
    accepted = inc16 t.accepted;
    step = set t.step t.knob (fminf (get_or t.step t.knob (lit 0 0) * lit 13 1) (lit 50 2));
    base = t.trial;
    trial = arm_reset;
    mode = measuring;
  }

  -- The rejecting branch of finish_probe, up to its test of all_done.
  unfoldable pub reject_trial : Tuner F → Tuner F
  unfolding turn_round
  reject_trial t =
      let t' = turn_round t t.knob in
      record t' { knob = suc t.knob % knobs; trial = arm_reset; mode = measuring }

  -- The two branches of finish_probe.
  unfoldable pub conclude : Verdict → Tuner F → Env F → Params F → Tuner F × Params F
  conclude keep t env p =
      let (started, t', p') = start_probe (accept_trial t p) env p in
      if started then (t', p') else monitor_if_done t' t'.good
  conclude revert t env p = monitor_if_done (reject_trial t) t.good

  unfoldable pub verdict_of : Tuner F → Env F → Verdict
  verdict_of t env =
      probe_verdict t.base t.trial (tuner_margin_sigma t env.bracket) env.land_sigma
        (policy_for env)

  unfoldable pub finish_probe : Tuner F → Env F → Params F → Tuner F × Params F
  finish_probe t env p = conclude (verdict_of t env) t env p
