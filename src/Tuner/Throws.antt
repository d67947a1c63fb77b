-- ===== src/Tuner/Throws.antt =====
-- What one throw does to the tuner as a whole: what it remembers, what throws a candidate out, and
-- that a converged tuner does not probe.
use open_trickler_rp2040_con.Prelude.{
  ◌≡◌, ◌≢◌, refl, true, false, ◌⊎◌, inl, inr, arith, not, Bool-cases, ◌∙◌,
}
use open_trickler_rp2040_con.Float.{Floats, lit, ◌*◌, lt}
use open_trickler_rp2040_con.Tuner.State.{Params, Env, Obs, Tuner, over, probing, converged}
use open_trickler_rp2040_con.Tuner.Arm.{policy_for, params_differ, arm_add}
use open_trickler_rp2040_con.Tuner.Knob.{clamp_params, anchor_to}
use open_trickler_rp2040_con.Tuner.Probe.{reopen_search}
use open_trickler_rp2040_con.Tuner.Observe.{
  admit_edit, record_throw, nudge_for_over, add_to_base, on_probing, on_converged, drift_check,
  dispatch, settle, is_pass, unusable, tuner_observe,
}
use open_trickler_rp2040_con.Tuner.Limits.{before_settle, tuner_observe-eq-settle}
use open_trickler_rp2040_con.Tuner.Edits.{landing_law-KeptBy, fresh_throw}
use open_trickler_rp2040_con.Tuner.Verdicts.{Rejected, finish_probe-Rejected}

module _ {F : Type 0} ⦃fl : Floats F⦄ where
  settle-seen :
      (t : Tuner F) (env : Env F) (p : Params F)
      → let (t', p') = settle t env p in (t'.seen ≡ p') × ((t'.mode ≡ probing) ⊎ (t'.good ≡ p'))
  unfolding settle
  settle-seen t env p = ground arith

  -- After every usable throw the tuner remembers the profile that it leaves, and outside a probe that
  -- profile is the accepted one.
  tuner_observe-seen :
      (t : Tuner F) (env : Env F) (obs : Obs F) (p : Params F)
      → unusable env obs ≡ false
      → let (t', p') = tuner_observe t env obs p in
        (t'.seen ≡ p') × ((t'.mode ≡ probing) ⊎ (t'.good ≡ p'))
  tuner_observe-seen t env obs p h =
      let d = before_settle t env obs p in
      rw (tuner_observe-eq-settle t env obs p h) (settle-seen d.0 env d.1)

  -- What the window, the trim and the miss history leave alone.
  record_throw-kept :
      (t : Tuner F) (env : Env F) (obs : Obs F)
      → let t' = record_throw t env obs in
        (t'.mode ≡ t.mode)
        × (t'.good ≡ t.good)
        × (t'.anchor ≡ t.anchor)
        × (t'.accepted ≡ t.accepted)
        × (t'.base ≡ t.base)
  unfolding record_throw
  record_throw-kept t env obs = ground arith

  admit_edit-unedited :
      (t : Tuner F) (p : Params F)
      → t.init ≡ true
      → params_differ p t.seen ≡ false
      → admit_edit t p ≡ (t, p)
  unfolding admit_edit
  admit_edit-unedited t p i h = ground arith

  on_probing-gross :
      (t : Tuner F) (env : Env F) (obs : Obs F) (p : Params F)
      → obs.result ≡ over
      → lt (lit 20 1 * env.bracket) obs.error_gr ≡ true
      → let (t', p') = on_probing t env obs p in Rejected t t' p'
  unfolding on_probing
  on_probing-gross t env obs p o g =
      let arm = arm_add t.trial obs.total_s obs.error_gr true in
      let u = record t { trial = record arm { misses = (policy_for env).reject_misses } } in
      ground (arith, finish_probe-Rejected u env p)

  clamp_params-anchor :
      (t u : Tuner F) (env : Env F) (p : Params F)
      → t.anchor ≡ u.anchor
      → clamp_params t env p ≡ clamp_params u env p
  unfolding clamp_params
  clamp_params-anchor t u env p h = rw h

  settle-Rejected :
      (t t' : Tuner F) (env : Env F) (p' : Params F)
      → Rejected t t' p'
      → let (u, q) = settle t' env p' in
        (u.mode ≢ probing)
        × (u.accepted ≡ t.accepted)
        × ((q ≡ clamp_params t env t.good) ⊎ (q ≡ clamp_params t env t.anchor))
  unfolding settle
  settle-Rejected t t' env p' r = ground (arith, clamp_params-anchor t' t env p', r.stopped)

  -- A gross overcharge during a probe (over by more than twice the bracket, on an unedited profile)
  -- stops the probe at once: nothing is accepted, and the live profile is the accepted one or the one
  -- first seen, cut to the hard limits.
  pub gross_overcharge_reverts :
      (t : Tuner F) (env : Env F) (obs : Obs F) (p : Params F)
      → unusable env obs ≡ false
      → t.init ≡ true
      → t.mode ≡ probing
      → params_differ p t.seen ≡ false
      → obs.result ≡ over
      → lt (lit 20 1 * env.bracket) obs.error_gr ≡ true
      → let (u, q) = tuner_observe t env obs p in
        (u.mode ≢ probing)
        × (u.accepted ≡ t.accepted)
        × ((q ≡ clamp_params t env t.good) ⊎ (q ≡ clamp_params t env t.anchor))
  unfolding dispatch
  gross_overcharge_reverts t env obs p h i m e o g =
      let r = record_throw t env obs in
      let (mode, good, anchor, accepted, _) = record_throw-kept t env obs in
      let d = on_probing r env obs p in
      rw (tuner_observe-eq-settle t env obs p h, admit_edit-unedited t p i e, mode, m)
        (ground (
          arith,
          record_throw-kept t env obs,
          settle-Rejected r d.0 env d.1 (on_probing-gross r env obs p o g),
          clamp_params-anchor r t env t.good anchor,
          clamp_params-anchor r t env t.anchor anchor,
        ))

  add_to_base-mode :
      (t : Tuner F) (env : Env F) (obs : Obs F) (p : Params F)
      → (add_to_base t env obs p).0.mode ≡ t.mode
  unfolding add_to_base
  add_to_base-mode t env obs p =
      let miss = not (is_pass obs.result) in
      let u = record t { base = arm_add t.base obs.total_s obs.error_gr miss } in
      ground (arith, landing_law-KeptBy u env p)

  drift_check-mode :
      (t : Tuner F) (env : Env F) (p : Params F)
      → t.mode ≢ probing
      → (drift_check t env p).0.mode ≢ probing
  unfolding drift_check reopen_search
  drift_check-mode t env p h = ground arith

  nudge_for_over-mode :
      (t : Tuner F) (env : Env F) (obs : Obs F) (p : Params F)
      → (nudge_for_over t env obs p).0.mode ≡ t.mode
  unfolding nudge_for_over
  nudge_for_over-mode t env obs p = refl

  -- The part of the converged case behind the back-off.
  watch-mode :
      (t : Tuner F) (env : Env F) (obs : Obs F) (p : Params F)
      → t.mode ≡ converged
      → let a = add_to_base t env obs p in (drift_check a.0 env a.1).0.mode ≢ probing
  watch-mode t env obs p m =
      let a = add_to_base t env obs p in
      drift_check-mode a.0 env a.1 (rw (add_to_base-mode t env obs p, m) (λ e. cc))

  on_converged-mode :
      (t : Tuner F) (env : Env F) (obs : Obs F) (p : Params F)
      → t.mode ≡ converged
      → (on_converged t env obs p).0.mode ≢ probing
  unfolding on_converged
  on_converged-mode t env obs p m =
      let n = nudge_for_over t env obs p in
      let u = record (n.0) { miss_bits = 0 } in
      ground (
        arith,
        watch-mode t env obs p m,
        watch-mode u env obs n.1 (nudge_for_over-mode t env obs p ∙ m),
      )

  admit_edit-converged :
      (t : Tuner F) (p : Params F)
      → t.mode ≡ converged
      → (admit_edit t p ≡ (t, p)) ⊎ (admit_edit t p ≡ (anchor_to p, p))
  unfolding admit_edit
  admit_edit-converged t p m = ground arith

  converged_step :
      (t : Tuner F) (env : Env F) (obs : Obs F) (p : Params F)
      → t.mode ≡ converged
      → let d = before_settle t env obs p in (settle d.0 env d.1).0.mode ≢ probing
  unfolding settle dispatch
  converged_step t env obs p m = elim (admit_edit-converged t p m) [
    | inl same ↦
        let r = record_throw t env obs in
        let stays = (record_throw-kept t env obs).0 ∙ m in
        rw same (simp stays (on_converged-mode r env obs p stays))
    | inr fresh ↦ rw fresh (rw ((fresh_throw env obs p).1) (λ e. cc))
  ]

  tuner_observe-early :
      (t : Tuner F) (env : Env F) (obs : Obs F) (p : Params F)
      → unusable env obs ≡ true
      → tuner_observe t env obs p ≡ (t, p)
  unfolding tuner_observe
  tuner_observe-early t env obs p h = rw h

  -- A tuner that has converged never starts a probe within one throw.
  converged-ne-probing :
      (t : Tuner F) (env : Env F) (obs : Obs F) (p : Params F)
      → t.mode ≡ converged
      → (tuner_observe t env obs p).0.mode ≢ probing
  converged-ne-probing t env obs p m = elim (Bool-cases (unusable env obs)) [
    | inl early ↦ rw (tuner_observe-early t env obs p early, m) (λ e. cc)
    | inr h ↦ rw (tuner_observe-eq-settle t env obs p h) (converged_step t env obs p m)
  ]
