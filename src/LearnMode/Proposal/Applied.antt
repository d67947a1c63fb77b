-- ===== src/LearnMode/Proposal/Applied.antt =====
-- What learn_mode_apply_to_profile changes.
use open_trickler_rp2040_con.Prelude.{if◌then◌else◌, ◌≡◌, not}
use open_trickler_rp2040_con.Float.{Floats, lit}
use open_trickler_rp2040_con.ChargeMode.State.{ChargeData}
use open_trickler_rp2040_con.Profile.{Profile}
use open_trickler_rp2040_con.LearnMode.State.{LearnResult}

module _ {F : Type 0} ⦃fl : Floats F⦄ where
  open fl use {D}

  -- The result's gains and speeds are in the profile, and its other fields are those of `p`.
  pub record Proposed (r : LearnResult F) (p p' : Profile F) : Type 0 where
    pub coarse_kp : p'.coarse_kp ≡ r.coarse_kp
    pub coarse_ki : p'.coarse_ki ≡ lit 0 0
    pub coarse_kd : p'.coarse_kd ≡ lit 0 0
    pub coarse_min : p'.coarse_min_flow_speed_rps ≡ r.coarse_min_rps
    pub coarse_max : p'.coarse_max_flow_speed_rps ≡ r.coarse_max_rps
    pub fine_kp : p'.fine_kp ≡ r.fine_kp
    pub fine_ki : p'.fine_ki ≡ lit 0 0
    pub fine_kd : p'.fine_kd ≡ lit 0 0
    pub fine_min : p'.fine_min_flow_speed_rps ≡ r.fine_min_rps
    pub fine_max : p'.fine_max_flow_speed_rps ≡ r.fine_max_rps
    pub rev : p'.rev ≡ p.rev
    pub compatibility : p'.compatibility ≡ p.compatibility
    pub name : p'.name ≡ p.name

  -- The result's handoff, scatter and lags are in the settings; the lags only where the prediction is used,
  -- which is then on, and otherwise their live tracking is.
  pub record Updated (r : LearnResult F) (c c' : ChargeData F) : Type 0 where
    pub handoff : c'.coarse_stop_threshold ≡ r.coarse_stop_threshold
    pub scatter : c'.coarse_tail_sd_gr ≡ r.coarse_tail_sd_at_max
    pub predict : c'.predict_enable ≡ r.predict_used
    pub either : c'.auto_lag_enable ≡ not c'.predict_enable
    pub coarse_lag : c'.coarse_lag_s ≡ (if r.predict_used then r.coarse_lag_s else c.coarse_lag_s)
    pub fine_lag : c'.fine_lag_s ≡ (if r.predict_used then r.fine_lag_s else c.fine_lag_s)
