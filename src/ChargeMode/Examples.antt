-- ===== src/ChargeMode/Examples.antt =====
-- A charge of 40 grains over the fixed-point floats: the machine before it.
use open_trickler_rp2040_con.Prelude.{true, false, [], replicate}
use open_trickler_rp2040_con.Prelude.Int.{ℤ}
use open_trickler_rp2040_con.Float.{fixed, lit}
use open_trickler_rp2040_con.Profile.{Profile}
use open_trickler_rp2040_con.SessionStats.{Stats, Throw, pass, record_of}
use open_trickler_rp2040_con.Tuner.State.{tuner_init}
use open_trickler_rp2040_con.ChargeMode.State.{normal, wait_for_zero, ChargeData}
use open_trickler_rp2040_con.ChargeMode.World.{Machine}

abbrev pub settings : ChargeData ℤ
settings = record {
  coarse_stop_threshold = lit 5 0;
  set_point_sd_margin = lit 2 2;
  set_point_mean_margin = lit 2 2;
  coarse_stop_gate_ratio = lit 5 1;
  coarse_stop_backoff_enable = true;
  coarse_stop_backoff_turns = lit 25 2;
  coarse_stop_backoff_speed_rps = lit 1 0;
  precharge_enable = false;
  precharge_time_ms = 0;
  precharge_speed_rps = lit 0 0;
  bracket_mode = normal;
  normal_bracket_steps = 3;
  match_bracket_steps = 1;
  learn_enable = true;
  predict_enable = false;
  coarse_lag_s = lit 35 2;
  fine_lag_s = lit 35 2;
  auto_lag_enable = true;
  coarse_tail_sd_gr = lit 0 0;
}

abbrev pub profile : Profile ℤ
profile = record {
  rev = 0;
  compatibility = 0;
  name = replicate 16 0;
  coarse_kp = lit 5 2;
  coarse_ki = lit 0 0;
  coarse_kd = lit 0 0;
  coarse_min_flow_speed_rps = lit 1 1;
  coarse_max_flow_speed_rps = lit 5 0;
  fine_kp = lit 2 0;
  fine_ki = lit 0 0;
  fine_kd = lit 0 0;
  fine_min_flow_speed_rps = lit 8 2;
  fine_max_flow_speed_rps = lit 5 0;
}

abbrev pub first_throw : Throw ℤ
first_throw = record {
  target = lit 40 0;
  actual = lit 40 0;
  total_s = lit 8 0;
  coarse_s = lit 3 0;
  bracket = lit 6 2;
  result = pass;
  profile_idx = 0;
  mode = 0;
}

abbrev pub log : Stats ℤ ℤ
log = record {
  log_buffer = replicate 400 (record_of 0 0 first_throw);
  log_head = 0;
  log_count = 0;
  seq_counter = 0;
  summary = record {
    total = 0;
    pass = 0;
    under = 0;
    over = 0;
    sum_time = lit 0 0;
    sum_err = lit 0 0;
    sum_err_sq = lit 0 0;
    min_time = lit 0 0;
    max_time = lit 0 0;
    session_start_ms = 0;
    last_throw_ms = 0;
  };
}

abbrev pub machine : Machine ℤ ℤ
machine = record {
  settings = settings;
  target_charge_weight = lit 40 0;
  state = wait_for_zero;
  over_charge = false;
  under_charge = false;
  motor_limits = record {
    coarse_max_speed = 8;
    coarse_min_speed = lit 5 2;
    fine_max_speed = 8;
    fine_min_speed = lit 5 2;
  };
  learn_config = record {
    learn_config_rev = 4;
    style = 0;
    reserved = 0;
    coarse_target = lit 8 0;
    fine_target = lit 15 1;
    coarse_speed_ceiling = lit 10 0;
    fine_speed_ceiling = lit 6 0;
    confirm_target = lit 265 1;
    confirm_throws = 10;
    time_goal_s = lit 0 0;
    cup_capacity_gr = lit 350 0;
    min_success_pct = lit 95 0;
    coarse_stop_safety = lit 15 1;
    land_sigma = lit 2 0;
  };
  gate_enable = true;
  profile_data = record { current_profile_idx = 0; profiles = replicate 8 profile };
  learn_tuner = replicate 8 tuner_init;
  learn_tuning_suppressed = false;
  log = log;
  last_charge_elapsed_seconds = lit 0 0;
  last_coarse_elapsed_seconds = lit 0 0;
  last_coarse_stop_weight = lit 0 0;
  throw_pending_record = true;
  weight_at_stop = lit 3996 2;
  rate_at_stop = lit 1 1;
  last_measured_lag = lit 0 0;
  last_dead_time_s = lit 0 0;
  commands = [];
}
