-- ===== src/Tuner/Invariant/Throw.antt =====
-- A whole throw keeps the tuner valid.
use Prim.Native.Nat.{◌-◌}
use open_trickler_rp2040_con.Prelude.{not, length-set, arith}
use open_trickler_rp2040_con.Float.{Floats}
use open_trickler_rp2040_con.Tuner.State.{
  Params, Env, Obs, Arm, Tuner, Mode, measuring, probing, converged,
}
use open_trickler_rp2040_con.Tuner.Arm.{arm_add, policy_for}
use open_trickler_rp2040_con.Tuner.Knob.{anchor_to}
use open_trickler_rp2040_con.Tuner.Probe.{start_probe, reopen_search}
use open_trickler_rp2040_con.Tuner.Observe.{
  admit_edit, merge_edit, record_throw, landing_law, nudge_for_over, add_to_base, try_probe,
  on_measuring, is_pass, on_probing, on_converged, drift_check, dispatch, settle, tuner_observe,
}
use open_trickler_rp2040_con.Tuner.Invariant.{IsArm, IsValid, arm_add-IsArm}
use open_trickler_rp2040_con.Tuner.Invariant.Probes.{
  start_probe-IsValid, enter_monitor-IsValid, finish_probe-IsValid,
}

module _ {F : Type 0} ⦃fl : Floats F⦄ where
  record_throw-IsValid :
      (t : Tuner F) (env : Env F) (obs : Obs F) → IsValid t → IsValid (record_throw t env obs)
  unfolding record_throw
  record_throw-IsValid t env obs h = ground (arith, length-set t.err t.err_next obs.error_gr)

  anchor_to-IsValid : (p : Params F) → IsValid (anchor_to p)
  unfolding anchor_to
  anchor_to-IsValid p = ground arith

  admit_edit-IsValid : (t : Tuner F) (p : Params F) → IsValid t → IsValid (admit_edit t p).0
  unfolding admit_edit
  admit_edit-IsValid t p h = ground (arith, anchor_to-IsValid p, anchor_to-IsValid (merge_edit t p))

  landing_law-IsValid :
      (t : Tuner F) (env : Env F) (p : Params F) → IsValid t → IsValid (landing_law t env p).0
  unfolding landing_law
  landing_law-IsValid t env p h = ground arith

  with_base-IsValid :
      (t : Tuner F) (b : Arm F) → IsValid t → IsArm b → IsValid (record t { base = b })
  with_base-IsValid t b h hb = ground arith

  add_to_base-IsValid :
      (t : Tuner F) (env : Env F) (obs : Obs F) (p : Params F)
      → IsValid t
      → IsValid (add_to_base t env obs p).0
  unfolding add_to_base
  add_to_base-IsValid t env obs p h =
      let miss = not (is_pass obs.result) in
      let arm = arm_add t.base obs.total_s obs.error_gr miss in
      let ha =
        with_base-IsValid t arm h (arm_add-IsArm t.base obs.total_s obs.error_gr miss h.base_arm) in
      ground (arith, ha, landing_law-IsValid (record t { base = arm }) env p ha)

  nudge_for_over-IsValid :
      (t : Tuner F) (env : Env F) (obs : Obs F) (p : Params F)
      → IsValid t
      → IsValid (nudge_for_over t env obs p).0
  unfolding nudge_for_over
  nudge_for_over-IsValid t env obs p h = ground arith

  try_probe-IsValid :
      (t : Tuner F) (env : Env F) (p : Params F) → IsValid t → IsValid (try_probe t env p).0
  unfolding try_probe
  try_probe-IsValid t env p h =
      let s = start_probe t env p in
      let hs = start_probe-IsValid t env p h in ground (arith, hs, enter_monitor-IsValid s.1 s.2 hs)

  drift_check-IsValid :
      (t : Tuner F) (env : Env F) (p : Params F) → IsValid t → IsValid (drift_check t env p).0
  unfolding drift_check reopen_search
  drift_check-IsValid t env p h = ground arith

  wait-IsValid : (t : Tuner F) → IsValid t → IsValid (record t { wait = t.wait - 1 })
  wait-IsValid t h = ground arith

  forget-IsValid : (t : Tuner F) → IsValid t → IsValid (record t { miss_bits = 0 })
  forget-IsValid t h = ground arith

  on_measuring-IsValid :
      (t : Tuner F) (env : Env F) (obs : Obs F) (p : Params F)
      → IsValid t
      → IsValid (on_measuring t env obs p).0
  unfolding on_measuring
  on_measuring-IsValid t env obs p h =
      let n = nudge_for_over t env obs p in
      let a = add_to_base t env obs p in
      ground (
        arith,
        forget-IsValid n.0 (nudge_for_over-IsValid t env obs p h),
        try_probe-IsValid (record (a.0) { wait = a.0.wait - 1 }) env a.1
            (wait-IsValid a.0 (add_to_base-IsValid t env obs p h)),
      )

  on_converged-IsValid :
      (t : Tuner F) (env : Env F) (obs : Obs F) (p : Params F)
      → IsValid t
      → IsValid (on_converged t env obs p).0
  unfolding on_converged
  on_converged-IsValid t env obs p h =
      let n = nudge_for_over t env obs p in
      let u = record (n.0) { miss_bits = 0 } in
      let hu = forget-IsValid n.0 (nudge_for_over-IsValid t env obs p h) in
      let a = add_to_base u env obs n.1 in
      let b = add_to_base t env obs p in
      ground (
        arith,
        drift_check-IsValid a.0 env a.1 (add_to_base-IsValid u env obs n.1 hu),
        drift_check-IsValid b.0 env b.1 (add_to_base-IsValid t env obs p h),
      )

  on_probing-IsValid :
      (t : Tuner F) (env : Env F) (obs : Obs F) (p : Params F)
      → IsValid t
      → IsValid (on_probing t env obs p).0
  unfolding on_probing
  on_probing-IsValid t env obs p h =
      let miss = not (is_pass obs.result) in
      let arm = arm_add t.trial obs.total_s obs.error_gr miss in
      let gross = record arm { misses = (policy_for env).reject_misses } in
      let ha = arm_add-IsArm t.trial obs.total_s obs.error_gr miss h.trial_arm in
      ground (
        arith,
        ha,
        finish_probe-IsValid t arm env p h (λ _. ha),
        finish_probe-IsValid t gross env p h (λ bad. absurd (omega arith)),
      )

  dispatch-IsValid :
      (m : Mode) (t : Tuner F) (env : Env F) (obs : Obs F) (p : Params F)
      → IsValid t
      → IsValid (dispatch m t env obs p).0
  unfolding dispatch
  dispatch-IsValid measuring t env obs p h = on_measuring-IsValid t env obs p h
  dispatch-IsValid probing t env obs p h = on_probing-IsValid t env obs p h
  dispatch-IsValid converged t env obs p h = on_converged-IsValid t env obs p h

  settle-IsValid :
      (t : Tuner F) (env : Env F) (p : Params F) → IsValid t → IsValid (settle t env p).0
  unfolding settle
  settle-IsValid t env p h = ground arith

  -- Every throw keeps the tuner valid: its window and knob indices stay in range, its arrays keep
  -- their sizes, no arm outgrows 40 throws or counts more misses than throws, the gate waits at most
  -- 4 throws and the landing pace at most 6.
  pub tuner_observe-IsValid :
      (t : Tuner F) (env : Env F) (obs : Obs F) (p : Params F)
      → IsValid t
      → IsValid (tuner_observe t env obs p).0
  unfolding tuner_observe
  tuner_observe-IsValid t env obs p h =
      let a = admit_edit t p in
      let r = record_throw a.0 env obs in
      let d = dispatch r.mode r env obs a.1 in
      let hr = record_throw-IsValid a.0 env obs (admit_edit-IsValid t p h) in
      ground (arith, settle-IsValid d.0 env d.1 (dispatch-IsValid r.mode r env obs a.1 hr))
