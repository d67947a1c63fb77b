-- ===== src/Tuner/Edits.antt =====
-- What the first throw, or an outside edit of the profile, resets.
use open_trickler_rp2040_con.Prelude.{◌≤◌, ◌≡◌, true, false, arith, not, ◌||◌, ◌&&◌}
use open_trickler_rp2040_con.Float.{Floats}
use open_trickler_rp2040_con.Tuner.State.{Params, Env, Obs, Tuner, measuring}
use open_trickler_rp2040_con.Tuner.Arm.{params_differ, arm_add}
use open_trickler_rp2040_con.Tuner.Knob.{anchor_to}
use open_trickler_rp2040_con.Tuner.Observe.{
  admit_edit, record_throw, nudge_for_over, landing_law, add_to_base, try_probe, on_measuring,
  dispatch, settle, is_pass, is_probing, unusable, tuner_observe,
}
use open_trickler_rp2040_con.Tuner.Limits.{tuner_observe-eq-settle}

module _ {F : Type 0} ⦃fl : Floats F⦄ where
  pub admit_edit-fresh :
      (t : Tuner F) (p : Params F)
      → not t.init || (not (is_probing t.mode) && params_differ p t.seen) ≡ true
      → admit_edit t p ≡ (anchor_to p, p)
  unfolding admit_edit
  admit_edit-fresh t p e = ground arith

  -- What a throw in the measuring state leaves alone while the baseline is short.
  pub record KeptBy (t t' : Tuner F) : Type 0 where
    pub anchor : t'.anchor ≡ t.anchor
    pub mode : t'.mode ≡ t.mode
    pub throws : t'.throws ≡ t.throws
    pub accepted : t'.accepted ≡ t.accepted
    pub probes : t'.probes ≡ t.probes
    pub base_n : t'.base.n ≤ t.base.n

  pub landing_law-KeptBy :
      (t : Tuner F) (env : Env F) (p : Params F) → KeptBy t (landing_law t env p).0
  unfolding landing_law
  landing_law-KeptBy t env p = ground arith

  on_measuring-fresh :
      (t : Tuner F) (env : Env F) (obs : Obs F) (p : Params F)
      → t.base.n ≡ 0
      → let t' = (on_measuring t env obs p).0 in
        (t'.anchor ≡ t.anchor)
        × (t'.mode ≡ t.mode)
        × (t'.throws ≡ t.throws)
        × (t'.accepted ≡ t.accepted)
        × (t'.probes ≡ t.probes)
  unfolding on_measuring nudge_for_over add_to_base try_probe arm_add
  on_measuring-fresh t env obs p z =
      let miss = not (is_pass obs.result) in
      let u = record t { base = arm_add t.base obs.total_s obs.error_gr miss } in
      ground (arith, landing_law-KeptBy u env p)

  record_throw-fresh :
      (env : Env F) (obs : Obs F) (p : Params F)
      → let r = record_throw (anchor_to p) env obs in
        (r.anchor ≡ p)
        × (r.mode ≡ measuring)
        × (r.throws ≡ 1)
        × (r.accepted ≡ 0)
        × (r.probes ≡ 0)
        × (r.base.n ≡ 0)
  unfolding record_throw anchor_to
  record_throw-fresh env obs p = ground arith

  pub fresh_throw :
      (env : Env F) (obs : Obs F) (p : Params F)
      → let r = record_throw (anchor_to p) env obs in
        let d = dispatch r.mode r env obs p in
        let t' = (settle d.0 env d.1).0 in
        (t'.anchor ≡ p)
        × (t'.mode ≡ measuring)
        × (t'.throws ≡ 1)
        × (t'.accepted ≡ 0)
        × (t'.probes ≡ 0)
  unfolding dispatch settle
  fresh_throw env obs p =
      let r = record_throw (anchor_to p) env obs in
      let f = record_throw-fresh env obs p in
      rw (f.1) (ground (arith, f, on_measuring-fresh r env obs p))

  -- The first throw, or the first after an edit outside a probe, starts the tuner afresh on the profile
  -- as it is: it is the new anchor, the tuner measures, and nothing is accepted or probed.
  restart :
      (t : Tuner F) (env : Env F) (obs : Obs F) (p : Params F)
      → unusable env obs ≡ false
      → not t.init || (not (is_probing t.mode) && params_differ p t.seen) ≡ true
      → let t' = (tuner_observe t env obs p).0 in
        (t'.anchor ≡ p)
        × (t'.mode ≡ measuring)
        × (t'.throws ≡ 1)
        × (t'.accepted ≡ 0)
        × (t'.probes ≡ 0)
  restart t env obs p h e =
      rw (tuner_observe-eq-settle t env obs p h, admit_edit-fresh t p e) (fresh_throw env obs p)
