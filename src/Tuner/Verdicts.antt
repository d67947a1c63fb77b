-- ===== src/Tuner/Verdicts.antt =====
-- What a probe of the tuner can do: when one starts, what throws it out, and what keeps it.
use Prim.Native.Nat.{◌+◌ as nat_add, ◌%◌}
use open_trickler_rp2040_con.Prelude.{
  ℕ, zero, suc, ◌≤◌, ◌<◌, ◌≡◌, ◌≢◌, refl, Bool, true, false, ◌⊎◌, inl, inr, get_or, arith,
}
use open_trickler_rp2040_con.Prelude.Int.{pos}
use open_trickler_rp2040_con.Float.{Floats, lit, of_nat, ◌+◌, ◌-◌, ◌*◌, ◌/◌, lt, le, sqrtf, fmaxf}
use open_trickler_rp2040_con.Tuner.State.{Params, Env, Tuner, probing, arm_reset}
use open_trickler_rp2040_con.Tuner.Arm.{policy_for, params_differ, arm_mean, arm_var}
use open_trickler_rp2040_con.Tuner.Window.{tuner_margin_sigma}
use open_trickler_rp2040_con.Tuner.Knob.{is_risky, clamp_params}
use open_trickler_rp2040_con.Tuner.Probe.{
  Verdict-cases, keep, revert, candidate, launch, turn_round, probe_loop, note_start, start_probe,
  probe_verdict, enter_monitor, monitor_if_done, reject_trial, conclude, verdict_of, finish_probe,
}

module _ {F : Type 0} ⦃fl : Floats F⦄ where
  verdict_of-keep :
      (t : Tuner F) (env : Env F)
      → verdict_of t env ≡ keep
      → let se = sqrtf (arm_var t.base / of_nat t.base.n + arm_var t.trial / of_nat t.trial.n) in
        let pol = policy_for env in
        (t.trial.misses < pol.reject_misses)
        × (lt (fmaxf pol.min_gain_s (lit 10 1 * se)) (arm_mean t.base - arm_mean t.trial) ≡ true)
  unfolding verdict_of probe_verdict
  verdict_of-keep t env h = ground arith

  -- A probe that has just started in state `t` with the profile `p`.
  pub record Started (env : Env F) (margin_ok : Bool) (good : Params F) (t : Tuner F) (p : Params F)
      : Type 0 where
    pub live : t.mode ≡ probing
    pub empty : t.trial ≡ arm_reset
    pub open_knob : get_or t.done t.knob false ≡ false
    pub gate : (is_risky t.knob (get_or t.dir t.knob (pos 0)) ≡ false) ⊎ (margin_ok ≡ true)
    pub is_candidate : p ≡ candidate t env t.knob
    pub moved : params_differ p t.good ≡ true
    pub good_kept : t.good ≡ good

  launch-Started :
      (t : Tuner F) (env : Env F) (m : Bool) (k : ℕ)
      → get_or t.done k false ≡ false
      → (is_risky k (get_or t.dir k (pos 0)) ≡ false) ⊎ (m ≡ true)
      → params_differ (candidate t env k) t.good ≡ true
      → Started env m t.good (launch t k) (candidate t env k)
  unfolding launch candidate clamp_params
  launch-Started t env m k d g h = record {
    live = refl;
    empty = refl;
    open_knob = d;
    gate = g;
    is_candidate = refl;
    moved = h;
    good_kept = refl;
  }

  turn_round-good : (t : Tuner F) (k : ℕ) → (turn_round t k).good ≡ t.good
  unfolding turn_round
  turn_round-good t k = refl

  probe_loop-Started :
      (n tries : ℕ) (env : Env F) (m : Bool) (t : Tuner F) (p : Params F)
      → (probe_loop n tries env m t p).0 ≡ true
      → let (_, t', p') = probe_loop n tries env m t p in Started env m t.good t' p'
  unfolding probe_loop
  probe_loop-Started zero tries env m t p h = cc
  probe_loop-Started (suc n) tries env m t p h =
      let k = nat_add t.knob tries % 4 in
      ground (
        arith,
        launch-Started t env m k,
        turn_round-good t k,
        probe_loop-Started n (suc tries) env m t p,
        probe_loop-Started n (suc tries) env m (turn_round t k) p,
      )

  note_start-good : (t : Tuner F) → (note_start t).good ≡ t.good
  unfolding note_start
  note_start-good t = ground arith

  -- If start_probe starts a probe, then the tuner is probing with an empty trial; its knob is not done;
  -- a riskier direction was taken only with the landing margin that the policy asks for; the live
  -- profile is the knob's candidate, cut to the hard limits; it differs from the accepted profile, and
  -- that one is unchanged.
  start_probe-Started :
      (t : Tuner F) (env : Env F) (p : Params F)
      → (start_probe t env p).0 ≡ true
      → let (_, t', p') = start_probe t env p in
        let margin = tuner_margin_sigma (note_start t) env.bracket in
        Started env (le ((policy_for env).risky_margin * env.land_sigma) margin) t.good t' p'
  unfolding start_probe
  start_probe-Started t env p h =
      let m =
        le ((policy_for env).risky_margin * env.land_sigma)
          (tuner_margin_sigma (note_start t) env.bracket) in
      ground (arith, note_start-good t, probe_loop-Started 4 0 env m (note_start t) p)

  -- What stays of a rejected probe.
  pub record Rejected (t t' : Tuner F) (p' : Params F) : Type 0 where
    pub stopped : t'.mode ≢ probing
    pub none_accepted : t'.accepted ≡ t.accepted
    pub anchor_kept : t'.anchor ≡ t.anchor
    pub back : (p' ≡ t.good) ⊎ (p' ≡ t.anchor)

  verdict_of-revert :
      (t : Tuner F) (env : Env F)
      → (policy_for env).reject_misses ≤ t.trial.misses
      → verdict_of t env ≡ revert
  unfolding verdict_of probe_verdict
  verdict_of-revert t env h = ground arith

  conclude-revert :
      (t : Tuner F) (env : Env F) (p : Params F)
      → let (t', p') = conclude revert t env p in Rejected t t' p'
  unfolding conclude reject_trial monitor_if_done enter_monitor
  conclude-revert t env p = ground arith

  -- A probe whose trial reached the policy's number of misses is never kept: the tuner leaves probing,
  -- accepts nothing, and puts back the accepted profile or the profile as first seen.
  pub finish_probe-Rejected :
      (t : Tuner F) (env : Env F) (p : Params F)
      → (policy_for env).reject_misses ≤ t.trial.misses
      → let (t', p') = finish_probe t env p in Rejected t t' p'
  unfolding finish_probe
  finish_probe-Rejected t env p h = rw (verdict_of-revert t env h) (conclude-revert t env p)

  -- If finish_probe accepts, then the trial had fewer misses than the policy rejects, and it was faster
  -- than the baseline by more than the policy's least gain and the standard error of the difference.
  pub finish_probe-gain :
      (t : Tuner F) (env : Env F) (p : Params F)
      → (finish_probe t env p).0.accepted ≢ t.accepted
      → let se = sqrtf (arm_var t.base / of_nat t.base.n + arm_var t.trial / of_nat t.trial.n) in
        let pol = policy_for env in
        (t.trial.misses < pol.reject_misses)
        × (lt (fmaxf pol.min_gain_s (lit 10 1 * se)) (arm_mean t.base - arm_mean t.trial) ≡ true)
  unfolding finish_probe
  finish_probe-gain t env p h = elim (Verdict-cases (verdict_of t env)) [
    | inl k ↦ verdict_of-keep t env k
    | inr r ↦ absurd (h (rw r (conclude-revert t env p).none_accepted))
  ]
