-- ===== src/Tuner/Invariant/Probes.antt =====
-- The probes keep the tuner valid.
use Prim.Native.Nat.{◌%◌, ◌+◌ as nat_add}
use open_trickler_rp2040_con.Prelude.{
  ℕ, zero, suc, ◌<◌, ◌≡◌, refl, Bool, true, length-set, get_or, arith,
}
use open_trickler_rp2040_con.Prelude.Int.{pos, neg}
use open_trickler_rp2040_con.Float.{Floats, lit, ◌*◌, fminf, le}
use open_trickler_rp2040_con.Tuner.State.{Params, Env, Arm, Tuner}
use open_trickler_rp2040_con.Tuner.Arm.{Policy, policy_for}
use open_trickler_rp2040_con.Tuner.Window.{tuner_margin_sigma}
use open_trickler_rp2040_con.Tuner.Probe.{
  Verdict, keep, revert, turn_round, launch, probe_loop, note_start, start_probe, probe_verdict,
  enter_monitor, monitor_if_done, reopen_search, accept_trial, reject_trial, verdict_of, conclude,
  finish_probe,
}
use open_trickler_rp2040_con.Tuner.Invariant.{IsArm, IsValid}

module _ {F : Type 0} ⦃fl : Floats F⦄ where
  pub turn_round-IsValid : (t : Tuner F) (k : ℕ) → IsValid t → IsValid (turn_round t k)
  unfolding turn_round
  turn_round-IsValid t k h = ground (
    arith,
    length-set t.dir k (neg (get_or t.dir k (pos 0))),
    length-set t.step k (get_or t.step k (lit 0 0) * lit 6 1),
    length-set t.done k true,
  )

  pub launch-IsValid : (t : Tuner F) (k : ℕ) → k < 4 → IsValid t → IsValid (launch t k)
  unfolding launch
  launch-IsValid t k hk h = ground arith

  pub probe_loop-IsValid :
      (n tries : ℕ) (env : Env F) (m : Bool) (t : Tuner F) (p : Params F)
      → IsValid t
      → IsValid (probe_loop n tries env m t p).1
  unfolding probe_loop
  probe_loop-IsValid zero tries env m t p h = h
  probe_loop-IsValid (suc n) tries env m t p h =
      let k = nat_add t.knob tries % 4 in
      ground (
        arith,
        launch-IsValid t k (omega arith) h,
        probe_loop-IsValid n (suc tries) env m t p h,
        probe_loop-IsValid n (suc tries) env m (turn_round t k) p (turn_round-IsValid t k h),
      )

  pub note_start-IsValid : (t : Tuner F) → IsValid t → IsValid (note_start t)
  unfolding note_start
  note_start-IsValid t h = ground arith

  pub start_probe-IsValid :
      (t : Tuner F) (env : Env F) (p : Params F) → IsValid t → IsValid (start_probe t env p).1
  unfolding start_probe
  start_probe-IsValid t env p h =
      let m =
        le ((policy_for env).risky_margin * env.land_sigma)
          (tuner_margin_sigma (note_start t) env.bracket) in
      ground (
        arith,
        note_start-IsValid t h,
        probe_loop-IsValid 4 0 env m (note_start t) p (note_start-IsValid t h),
      )

  pub enter_monitor-IsValid :
      (t : Tuner F) (p : Params F) → IsValid t → IsValid (enter_monitor t p).0
  unfolding enter_monitor
  enter_monitor-IsValid t p h = ground arith

  pub monitor_if_done-IsValid :
      (t : Tuner F) (p : Params F) → IsValid t → IsValid (monitor_if_done t p).0
  unfolding monitor_if_done
  monitor_if_done-IsValid t p h = ground (arith, enter_monitor-IsValid t p h)

  pub reopen_search-IsValid : (t : Tuner F) → IsValid t → IsValid (reopen_search t)
  unfolding reopen_search
  reopen_search-IsValid t h = ground arith

  pub probe_verdict-keep :
      (base trial : Arm F) (margin sigma : F) (pol : Policy F)
      → probe_verdict base trial margin sigma pol ≡ keep
      → trial.misses < pol.reject_misses
  unfolding probe_verdict
  probe_verdict-keep base trial margin sigma pol h = ground arith

  pub accept_trial-IsValid :
      (t : Tuner F) (b : Arm F) (p : Params F)
      → IsValid t
      → IsArm b
      → IsValid (accept_trial (record t { trial = b }) p)
  unfolding accept_trial
  accept_trial-IsValid t b p h hb = ground (
    arith,
    length-set t.step t.knob (fminf (get_or t.step t.knob (lit 0 0) * lit 13 1) (lit 50 2)),
  )

  pub reject_trial-IsValid :
      (t : Tuner F) (b : Arm F) → IsValid t → IsValid (reject_trial (record t { trial = b }))
  unfolding reject_trial
  reject_trial-IsValid t b h = ground (
    arith,
    length-set t.dir t.knob (neg (get_or t.dir t.knob (pos 0))),
    length-set t.step t.knob (get_or t.step t.knob (lit 0 0) * lit 6 1),
    length-set t.done t.knob true,
  )

  pub verdict_of-keep :
      (t : Tuner F) (env : Env F)
      → verdict_of t env ≡ keep
      → t.trial.misses < (policy_for env).reject_misses
  unfolding verdict_of
  verdict_of-keep t env h = probe_verdict-keep t.base t.trial _ _ (policy_for env) h

  pub conclude-IsValid :
      (v : Verdict) (t : Tuner F) (b : Arm F) (env : Env F) (p : Params F)
      → IsValid t
      → (v ≡ keep → IsArm b)
      → IsValid (conclude v (record t { trial = b }) env p).0
  unfolding conclude
  conclude-IsValid keep t b env p h hb =
      let t' = accept_trial (record t { trial = b }) p in
      let s = start_probe t' env p in
      let hs = start_probe-IsValid t' env p (accept_trial-IsValid t b p h (hb refl)) in
      ground (arith, hs, monitor_if_done-IsValid s.1 s.1.good hs)
  conclude-IsValid revert t b env p h hb =
      monitor_if_done-IsValid (reject_trial (record t { trial = b })) t.good
        (reject_trial-IsValid t b h)

  -- A trial with too many misses need not be an arm: it is thrown away.
  pub finish_probe-IsValid :
      (t : Tuner F) (b : Arm F) (env : Env F) (p : Params F)
      → IsValid t
      → (b.misses < (policy_for env).reject_misses → IsArm b)
      → IsValid (finish_probe (record t { trial = b }) env p).0
  unfolding finish_probe
  finish_probe-IsValid t b env p h hb =
      let u = record t { trial = b } in
      conclude-IsValid (verdict_of u env) t b env p h (λ k. hb (verdict_of-keep u env k))
