-- ===== src/LearnMode/Proposal.antt =====
-- fit_profile, back_off_profile and learn_mode_apply_to_profile: from the throws to a profile.
pub mod Goal
pub mod Applied
use open_trickler_rp2040_con.Prelude.{
  ℕ, Bool, true, false, not, ◌&&◌, ◌||◌, if◌then◌else◌, Option, none, some, List, [], ◌∷◌, set,
}
use open_trickler_rp2040_con.Float.{Floats, lit, of_nat, ◌+◌, ◌-◌, ◌*◌, ◌/◌, lt, le, fmaxf, fminf}
use open_trickler_rp2040_con.Profile.{Profile, ProfileData}
use open_trickler_rp2040_con.ChargeMode.State.{ChargeData, charge_mode_get_active_bracket}
use open_trickler_rp2040_con.ChargeMode.World.{
  Machine, profile_get_selected, learn_mode_get_land_sigma, learn_mode_is_aggressive,
}
use open_trickler_rp2040_con.LearnMode.State.{LearnThrow, LearnResult, Learner}
use open_trickler_rp2040_con.LearnMode.Fit.{
  LagStats, Prediction, fit_flow_per_rps, lag_stats, predict_throw,
}
use open_trickler_rp2040_con.LearnMode.Search.{Bounds, Choice, find_choice}

module _ {F : Type 0} ⦃fl : Floats F⦄ where
  open fl use {D}

  -- `memset` to zero.
  abbrev pub no_result : LearnResult F
  no_result = record {
    coarse_tail_per_rps = lit 0 0;
    fine_tail_per_rps = lit 0 0;
    coarse_lag_s = lit 0 0;
    fine_lag_s = lit 0 0;
    lag_used_s = lit 0 0;
    lag_sd_s = lit 0 0;
    dead_time_s = lit 0 0;
    predict_used = false;
    coarse_k = lit 0 0;
    coarse_tail_at_max = lit 0 0;
    coarse_tail_sd_at_max = lit 0 0;
    fine_k = lit 0 0;
    fine_tail_at_max = lit 0 0;
    fine_tail_sd_at_max = lit 0 0;
    coarse_min_rps = lit 0 0;
    coarse_max_rps = lit 0 0;
    coarse_kp = lit 0 0;
    fine_min_rps = lit 0 0;
    fine_max_rps = lit 0 0;
    fine_kp = lit 0 0;
    fine_taper_gr = lit 0 0;
    coarse_taper_gr = lit 0 0;
    coarse_stop_threshold = lit 0 0;
    predicted_coarse_s = lit 0 0;
    predicted_fine_s = lit 0 0;
    predicted_total_s = lit 0 0;
    meets_time_goal = false;
    confirm_total = 0;
    confirm_pass = 0;
    confirm_avg_time = lit 0 0;
    confirm_rounds = 0;
    confirm_met = false;
  }

  -- The first part of fit_profile: flows and lags.
  unfoldable pub fit_lags : F → F → LagStats F → LearnResult F
  fit_lags coarse_k fine_k lags =
      let used = fminf (lit 30 1) (fmaxf (lit 0 0) lags.mean) in
      record no_result {
        coarse_k = coarse_k;
        fine_k = fine_k;
        coarse_lag_s = lags.coarse_mean;
        fine_lag_s = lags.fine_mean;
        lag_sd_s = lags.sd;
        dead_time_s = lags.dead;
        lag_used_s = used;
        predict_used = lt (lit 5 2) used;
        coarse_tail_per_rps = lags.coarse_mean * coarse_k;
        fine_tail_per_rps = lags.fine_mean * fine_k;
      }

  abbrev pub coarse_motor_min : Learner F D → F
  coarse_motor_min l = fmaxf l.machine.motor_limits.coarse_min_speed (lit 5 2)

  abbrev pub fine_motor_min : Learner F D → F
  fine_motor_min l = fmaxf l.machine.motor_limits.fine_min_speed (lit 5 2)

  abbrev pub coarse_cap : Learner F D → F
  coarse_cap l =
      fminf l.machine.learn_config.coarse_speed_ceiling
        (of_nat l.machine.motor_limits.coarse_max_speed)

  abbrev pub fine_cap : Learner F D → F
  fine_cap l =
      fminf l.machine.learn_config.fine_speed_ceiling (of_nat l.machine.motor_limits.fine_max_speed)

  -- The fastest and the slowest speed that the ladder ran; zero where it ran none.
  unfoldable pub measured_max : List (LearnThrow F) → F → F
  measured_max [] best = best
  measured_max (t ∷ ts) best =
      measured_max ts (if lt (lit 0 0) t.time_s && lt best t.speed_rps then t.speed_rps else best)

  unfoldable pub measured_min : List (LearnThrow F) → F → F
  measured_min [] best = best
  measured_min (t ∷ ts) best = measured_min ts (
      if lt (lit 0 0) t.time_s && (le best (lit 0 0) || lt t.speed_rps best)
      then t.speed_rps
      else best)

  unfoldable pub clamp_safety : F → F
  clamp_safety m =
      let floored = if lt m (lit 10 1) then lit 10 1 else m in
      if lt (lit 50 1) floored then lit 50 1 else floored

  -- The fastest landing of the fine tube that the bracket allows, within the motor's range.
  unfoldable pub fine_land_hi : Learner F D → LearnResult F → F → F
  unfolding charge_mode_get_active_bracket learn_mode_get_land_sigma
  fine_land_hi l r fine_lag_err =
      let m = l.machine in
      let f_min = fine_motor_min l in
      let fmin_land = if lt (lit 0 0) r.fine_k then lit 6 2 / r.fine_k else f_min in
      let land_budget = lit 80 2 * charge_mode_get_active_bracket m.settings in
      let fmin_err =
        if lt (lit 0 0) r.fine_k && lt (lit 0 0) fine_lag_err
        then land_budget / (learn_mode_get_land_sigma m.learn_config * r.fine_k * fine_lag_err)
        else fmin_land in
      let capped = if lt (fine_cap l) fmin_err then fine_cap l else fmin_err in
      if lt capped f_min then f_min else capped

  unfoldable pub fine_land_lo : Learner F D → LearnResult F → F → F
  fine_land_lo l r fmin_hi =
      let f_min = fine_motor_min l in
      let fmin_land = if lt (lit 0 0) r.fine_k then lit 6 2 / r.fine_k else f_min in
      let lo = fminf fmin_land fmin_hi in if lt lo f_min then f_min else lo

  -- The fastest bulk that the search may pick.
  unfoldable pub coarse_hi : Learner F D → F
  unfolding measured_max
  coarse_hi l =
      let measured = measured_max l.coarse_throws (lit 0 0) in
      let hi =
        if lt (lit 0 0) measured
        then fminf (coarse_cap l) (measured * lit 125 2)
        else coarse_cap l in
      if lt hi (coarse_motor_min l) then coarse_motor_min l else hi

  -- The constants of the search.
  unfoldable pub bounds_of : Learner F D → LearnResult F → LagStats F → Bounds F
  unfolding measured_min clamp_safety fine_land_hi fine_land_lo coarse_hi learn_mode_is_aggressive
  bounds_of l r lags =
      let c = l.machine.learn_config in
      let predicting = r.predict_used in
      let coarse_lag_err =
        if predicting then fmaxf lags.coarse_sd (lit 2 2) else fmaxf r.coarse_lag_s (lit 5 2) in
      let fine_lag_err =
        if predicting then fmaxf lags.fine_sd (lit 2 2) else fmaxf r.fine_lag_s (lit 5 2) in
      let aggressive = learn_mode_is_aggressive c in
      let fmin_hi = fine_land_hi l r fine_lag_err in
      record {
        target = c.confirm_target;
        goal = c.time_goal_s;
        coarse_k = r.coarse_k;
        fine_k = r.fine_k;
        coarse_lag_s = r.coarse_lag_s;
        fine_lag_s = r.fine_lag_s;
        dead_time_s = r.dead_time_s;
        coarse_lag_err = coarse_lag_err;
        coarse_margin_mult = clamp_safety (if predicting then c.coarse_stop_safety else lit 10 1);
        stop_margin_gr = if aggressive then lit 5 2 else lit 15 2;
        stop_min_gr = if aggressive then lit 15 2 else lit 30 2;
        c_motor_min = coarse_motor_min l;
        f_motor_min = fine_motor_min l;
        c_hi = coarse_hi l;
        f_hi = fine_cap l;
        fmin_lo = fine_land_lo l r fmin_hi;
        fmin_hi = fmin_hi;
        c_land_lo = fmaxf (coarse_motor_min l) (measured_min l.coarse_throws (lit 0 0));
      }

  -- The last part of fit_profile: the choice, as a profile.
  unfoldable pub propose : F → LagStats F → Choice F → LearnResult F → LearnResult F
  propose goal lags x r =
      let coarse_min = fminf x.cland x.c in
      let fine_flow = r.fine_k * x.f in
      record r {
        fine_min_rps = x.fmin;
        fine_max_rps = x.f;
        fine_taper_gr = x.taper;
        fine_kp = if lt (lit 0 0) x.taper then x.f / x.taper else x.f;
        coarse_max_rps = x.c;
        coarse_min_rps = coarse_min;
        coarse_taper_gr = x.ctaper;
        coarse_stop_threshold = x.handoff;
        coarse_tail_at_max = r.coarse_lag_s * r.coarse_k * x.c;
        coarse_tail_sd_at_max = lags.coarse_sd * r.coarse_k * coarse_min;
        fine_tail_at_max = r.fine_lag_s * fine_flow;
        fine_tail_sd_at_max = lags.fine_sd * fine_flow;
        coarse_kp = if lt (lit 0 0) x.ctaper then x.c / x.ctaper else x.c;
        predicted_coarse_s = x.cs;
        predicted_fine_s = x.fs;
        predicted_total_s = x.total;
        meets_time_goal = le x.total goal;
      }

  -- The flows and lags of the throws so far, and the search's constants from them.
  unfoldable pub fitted_lags : Learner F D → LearnResult F
  unfolding fit_flow_per_rps lag_stats fit_lags
  fitted_lags l =
      fit_lags (fit_flow_per_rps l.coarse_throws) (fit_flow_per_rps l.fine_throws)
        (lag_stats l.coarse_throws l.fine_throws)

  unfoldable pub fit_bounds : Learner F D → Bounds F
  unfolding fitted_lags lag_stats bounds_of
  fit_bounds l = bounds_of l (fitted_lags l) (lag_stats l.coarse_throws l.fine_throws)

  unfoldable pub fit_profile : Learner F D → Learner F D
  unfolding fitted_lags lag_stats fit_bounds find_choice propose
  fit_profile l = record l {
    result =
        propose l.machine.learn_config.time_goal_s (lag_stats l.coarse_throws l.fine_throws)
          (find_choice (fit_bounds l)) (fitted_lags l);
    result_valid = true;
  }

  -- The confirmation missed its target: a slower landing and a wider handoff.
  unfoldable pub back_off_profile : Learner F D → Learner F D
  unfolding predict_throw
  back_off_profile l =
      let r = l.result in
      let c = l.machine.learn_config in
      let fine_min = fmaxf (fine_motor_min l) (r.fine_min_rps * lit 7 1) in
      let fine_max = fmaxf fine_min (r.fine_max_rps * lit 85 2) in
      let taper = r.fine_taper_gr * lit 14 1 in
      let handoff = r.coarse_stop_threshold * lit 13 1 in
      let coarse_min = fmaxf (coarse_motor_min l) (r.coarse_min_rps * lit 7 1) in
      let (cs, fs) = predict_throw (record {
        target = c.confirm_target;
        coarse_flow = r.coarse_k * r.coarse_max_rps;
        coarse_land_flow = r.coarse_k * coarse_min;
        coarse_taper_gr = r.coarse_taper_gr;
        fine_flow_max = r.fine_k * fine_max;
        fine_flow_min = r.fine_k * fine_min;
        fmax_rps = fine_max;
        fmin_rps = fine_min;
        dead_time_s = r.dead_time_s;
        handoff = handoff;
        taper_gr = taper;
      }) in
      record l {
        result = record r {
          fine_min_rps = fine_min;
          fine_max_rps = fine_max;
          fine_taper_gr = taper;
          fine_kp = fine_max / taper;
          coarse_stop_threshold = handoff;
          coarse_min_rps = coarse_min;
          coarse_tail_sd_at_max =
              if lt (lit 0 0) r.coarse_min_rps
              then r.coarse_tail_sd_at_max * (coarse_min / r.coarse_min_rps)
              else r.coarse_tail_sd_at_max;
          predicted_coarse_s = cs;
          predicted_fine_s = fs;
          predicted_total_s = cs + fs;
          meets_time_goal = le (cs + fs) c.time_goal_s;
        };
      }

  unfoldable pub proposed_profile : LearnResult F → Profile F → Profile F
  proposed_profile r p = record p {
    coarse_kp = r.coarse_kp;
    coarse_ki = lit 0 0;
    coarse_kd = lit 0 0;
    coarse_min_flow_speed_rps = r.coarse_min_rps;
    coarse_max_flow_speed_rps = r.coarse_max_rps;
    fine_kp = r.fine_kp;
    fine_ki = lit 0 0;
    fine_kd = lit 0 0;
    fine_min_flow_speed_rps = r.fine_min_rps;
    fine_max_flow_speed_rps = r.fine_max_rps;
  }

  unfoldable pub proposed_settings : LearnResult F → ChargeData F → ChargeData F
  proposed_settings r c = record c {
    coarse_stop_threshold = r.coarse_stop_threshold;
    predict_enable = r.predict_used;
    coarse_lag_s = if r.predict_used then r.coarse_lag_s else c.coarse_lag_s;
    fine_lag_s = if r.predict_used then r.fine_lag_s else c.fine_lag_s;
    auto_lag_enable = not r.predict_used;
    coarse_tail_sd_gr = r.coarse_tail_sd_at_max;
  }

  -- A profile's index out of range is left alone here: the code would write beyond its table.
  unfoldable pub with_selected : (Profile F → Profile F) → ProfileData F → ProfileData F
  unfolding profile_get_selected
  with_selected f d = elim (profile_get_selected d) [
    | none ↦ d
    | some p ↦ record d { profiles = set d.profiles d.current_profile_idx (f p) }
  ]

  -- With the result of the call.
  unfoldable pub learn_mode_apply_to_profile : Learner F D → Learner F D × Bool
  unfolding with_selected proposed_profile proposed_settings
  learn_mode_apply_to_profile l =
      let m = l.machine in
      let r = l.result in
      if l.result_valid
      then (
        record l {
          machine = record m {
            profile_data = with_selected (proposed_profile r) m.profile_data;
            settings = proposed_settings r m.settings;
          };
          applied_to_profile = true;
        },
        true,
      )
      else (l, false)
