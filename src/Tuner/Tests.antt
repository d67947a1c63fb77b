-- ===== src/Tuner/Tests.antt =====
-- The tuner's theorems at concrete throws, over the fixed-point floats.
use open_trickler_rp2040_con.Prelude.{ℕ, zero, suc, ◌<◌, ◌≡◌, ◌≢◌, refl, ◌⊎◌, true, false, arith}
use open_trickler_rp2040_con.Prelude.Int.{ℤ, pos}
use open_trickler_rp2040_con.Float.{
  fixed, fixed_arith, lit, of_nat, ◌+◌, ◌-◌, ◌*◌, ◌/◌, lt, sqrtf, fmaxf,
}
use open_trickler_rp2040_con.Tuner.State.{
  Params, Env, Obs, Tuner, pass, over, probing, converged, tuner_init, arm_reset,
}
use open_trickler_rp2040_con.Tuner.Arm.{
  policy_for, clampf, params_differ, popcount, recent_misses, arm_add, arm_mean, arm_var,
  arm_err_rms,
}
use open_trickler_rp2040_con.Tuner.Window.{window_stats, tuner_margin_sigma}
use open_trickler_rp2040_con.Tuner.Knob.{is_risky, all_done, clamp_params, anchor_to, apply_knob}
use open_trickler_rp2040_con.Tuner.Probe.{
  turn_round, candidate, launch, probe_loop, start_probe, probe_verdict, enter_monitor,
  reopen_search, monitor_if_done, accept_trial, reject_trial, conclude, verdict_of, finish_probe,
}
use open_trickler_rp2040_con.Tuner.Observe.{
  admit_edit, record_throw, nudge_for_over, landing_ratio, landing_law, add_to_base, try_probe,
  drift_check, cluster, settle, tuner_observe,
}
use open_trickler_rp2040_con.Tuner.Invariant.{IsValid, tuner_init-IsValid}
use open_trickler_rp2040_con.Tuner.Invariant.Throw.{tuner_observe-IsValid}
use open_trickler_rp2040_con.Tuner.Limits.{Irreflexive, Splits, motor_cap_respected}
use open_trickler_rp2040_con.Tuner.Verdicts.{Rejected, finish_probe-Rejected, finish_probe-gain}
use open_trickler_rp2040_con.Tuner.Throws.{gross_overcharge_reverts}

abbrev profile : Params ℤ
profile = record {
  fine_max = lit 5 0;
  fine_min = lit 8 2;
  fine_kp = lit 2 0;
  coarse_max = lit 5 0;
  coarse_min = lit 1 1;
  coarse_kp = lit 5 2;
  handoff = lit 5 0;
}

abbrev env : Env ℤ
env = record {
  target = lit 40 0;
  bracket = lit 2 2;
  land_sigma = lit 2 0;
  coarse_motor_cap = lit 8 0;
  fine_motor_cap = lit 8 0;
  coarse_motor_min = lit 5 2;
  coarse_sd_floor_gr = lit 2 1;
  handoff_cap_frac = lit 3 1;
  time_goal_s = lit 0 0;
  handoff_floor_gr = lit 0 0;
  aggressive = false;
}

abbrev good_throw : Obs ℤ
good_throw = record {
  result = pass;
  total_s = lit 8 0;
  error_gr = lit 0 0;
  coarse_ran_long = false;
}

-- An overcharge of more than twice the bracket.
abbrev over_throw : Obs ℤ
over_throw = record {
  result = over;
  total_s = lit 8 0;
  error_gr = lit 9 2;
  coarse_ran_long = false;
}

abbrev edited : Params ℤ
edited = record profile { handoff = lit 6 0 }

-- The last throw passed and the one before missed.
abbrev missed : Tuner ℤ
missed = let t = tuner_init in record t { miss_bits = 2 }

-- The tuner and the profile after n such throws, from a fresh start.
run : ℕ → Tuner ℤ × Params ℤ
unfolding fixed_arith tuner_init tuner_observe admit_edit record_throw settle nudge_for_over
    add_to_base landing_law landing_ratio try_probe drift_check cluster recent_misses popcount
    start_probe probe_loop turn_round candidate launch clamp_params anchor_to apply_knob is_risky
    all_done enter_monitor reopen_search finish_probe conclude verdict_of probe_verdict accept_trial
    reject_trial monitor_if_done arm_add arm_mean arm_var arm_err_rms policy_for clampf
    params_differ window_stats tuner_margin_sigma
run zero = (tuner_init, profile)
run (suc n) = let s = run n in tuner_observe s.0 env good_throw s.1

-- Ten good throws fill the baseline, and a wider handoff is tried.
probes_after_ten :
    ((run 10).0.mode ≡ probing) × ((run 10).0.probes ≡ 1) × ((run 10).1.handoff ≡ pos 62500)
unfolding run
probes_after_ten = (refl, refl, refl)

run-IsValid : (n : ℕ) → IsValid (run n).0
unfolding run
run-IsValid zero = tuner_init-IsValid
run-IsValid (suc n) = tuner_observe-IsValid (run n).0 env good_throw (run n).1 (run-IsValid n)

tuner_observe-IsValid_example : IsValid (tuner_observe (run 12).0 env over_throw (run 12).1).0
tuner_observe-IsValid_example =
    tuner_observe-IsValid (run 12).0 env over_throw (run 12).1 (run-IsValid 12)

irreflexive : Irreflexive fixed
unfolding fixed_arith
irreflexive x = ground arith

splits : Splits fixed
unfolding fixed_arith
splits x y z f h = ground arith

motor_cap_respected_example :
    lt env.coarse_motor_cap (tuner_observe (run 10).0 env good_throw (run 10).1).1.coarse_max
    ≡ false
unfolding run
motor_cap_respected_example =
    motor_cap_respected irreflexive splits (run 10).0 env good_throw (run 10).1 refl refl refl refl

-- A trial of two throws, both missed.
twice_missed : Tuner ℤ
twice_missed = let t = (run 12).0 in record t { trial = record arm_reset { n = 2; misses = 2 } }

finish_probe-Rejected_example :
    let (t', p') = finish_probe twice_missed env (run 12).1 in Rejected twice_missed t' p'
unfolding twice_missed policy_for
finish_probe-Rejected_example = finish_probe-Rejected twice_missed env (run 12).1 (omega arith)

-- A trial of ten throws of 6 s each, against a baseline of 8 s.
faster : Tuner ℤ
unfolding run
faster =
    let t = (run 10).0 in
    record t { trial = record arm_reset { n = 10; sum = lit 60 0; sum_sq = lit 360 0 } }

finish_probe-gain_example :
    let base = faster.base in
    let trial = faster.trial in
    let se = sqrtf (arm_var base / of_nat base.n + arm_var trial / of_nat trial.n) in
    let pol = policy_for env in
    (trial.misses < pol.reject_misses)
    × (lt (fmaxf pol.min_gain_s (lit 10 1 * se)) (arm_mean base - arm_mean trial) ≡ true)
unfolding faster
finish_probe-gain_example = finish_probe-gain faster env (run 10).1 (omega arith)

gross_overcharge_reverts_example :
    let t = (run 12).0 in
    let (u, q) = tuner_observe t env over_throw (run 12).1 in
    (u.mode ≢ probing)
    × (u.accepted ≡ t.accepted)
    × ((q ≡ clamp_params t env t.good) ⊎ (q ≡ clamp_params t env t.anchor))
unfolding run
gross_overcharge_reverts_example =
    gross_overcharge_reverts (run 12).0 env over_throw (run 12).1 refl refl refl refl refl refl

watching : Tuner ℤ
watching = let t = (run 12).0 in record t { mode = converged }
