-- ===== src/Tuner/State.antt =====
-- The types of learn_tuner.h: parameters, environment, observation and the tuner's own state.
use open_trickler_rp2040_con.Prelude.{ℕ, Bool, false, List, replicate}
use open_trickler_rp2040_con.Prelude.Int.{ℤ, pos}
use open_trickler_rp2040_con.Float.{Floats, lit}

abbrev pub err_window : ℕ
err_window = 20

abbrev pub err_min_n : ℕ
err_min_n = 8

abbrev pub arm_n : ℕ
arm_n = 10

abbrev pub monitor_n : ℕ
monitor_n = 16

abbrev pub knobs : ℕ
knobs = 4

pub record Params (F : Type 0) : Type 0 where
  pub fine_max : F
  pub fine_min : F
  pub fine_kp : F
  pub coarse_max : F
  pub coarse_min : F
  pub coarse_kp : F
  pub handoff : F

pub record Env (F : Type 0) : Type 0 where
  pub target : F
  pub bracket : F
  pub land_sigma : F
  pub coarse_motor_cap : F
  pub fine_motor_cap : F
  pub coarse_motor_min : F
  pub coarse_sd_floor_gr : F
  pub handoff_cap_frac : F
  pub time_goal_s : F
  pub handoff_floor_gr : F
  pub aggressive : Bool

pub data ThrowResult : Type 0 where
  pass over under : ThrowResult

pub record Obs (F : Type 0) : Type 0 where
  pub result : ThrowResult
  pub total_s : F
  pub error_gr : F
  pub coarse_ran_long : Bool

pub data Mode : Type 0 where
  measuring probing converged : Mode

-- `tuner_arm_t`; n and misses are uint8_t.
pub record Arm (F : Type 0) : Type 0 where
  pub n : ℕ
  pub misses : ℕ
  pub sum : F
  pub sum_sq : F
  pub err_sum : F
  pub err_sum_sq : F

-- `tuner_t`. The arrays err, dir, step and done are lists; counters are uint8_t but for miss_bits,
-- a uint32_t, and probes, accepted and throws, each a uint16_t.
pub record Tuner (F : Type 0) : Type 0 where
  pub init : Bool
  pub anchor : Params F
  pub good : Params F
  pub seen : Params F
  pub err : List F
  pub err_count : ℕ
  pub err_next : ℕ
  pub trim_gr : F
  pub land_tick : ℕ
  pub miss_bits : ℕ
  pub mode : Mode
  pub knob : ℕ
  pub dir : List ℤ
  pub step : List F
  pub done : List Bool
  pub wait : ℕ
  pub base : Arm F
  pub trial : Arm F
  pub monitor_ref_s : F
  pub start_mean_s : F
  pub start_misses : ℕ
  pub start_known : Bool
  pub probes : ℕ
  pub accepted : ℕ
  pub throws : ℕ
  pub last_gain_s : F

module _ {F : Type 0} ⦃fl : Floats F⦄ where
  abbrev pub zero_params : Params F
  zero_params = record {
    fine_max = lit 0 0;
    fine_min = lit 0 0;
    fine_kp = lit 0 0;
    coarse_max = lit 0 0;
    coarse_min = lit 0 0;
    coarse_kp = lit 0 0;
    handoff = lit 0 0;
  }

  -- `arm_reset` leaves all bytes zero.
  abbrev pub arm_reset : Arm F
  arm_reset = record {
    n = 0;
    misses = 0;
    sum = lit 0 0;
    sum_sq = lit 0 0;
    err_sum = lit 0 0;
    err_sum_sq = lit 0 0;
  }

  -- `tuner_init`: all bytes zero.
  unfoldable pub tuner_init : Tuner F
  tuner_init = record {
    init = false;
    anchor = zero_params;
    good = zero_params;
    seen = zero_params;
    err = replicate 20 (lit 0 0);
    err_count = 0;
    err_next = 0;
    trim_gr = lit 0 0;
    land_tick = 0;
    miss_bits = 0;
    mode = measuring;
    knob = 0;
    dir = replicate 4 (pos 0);
    step = replicate 4 (lit 0 0);
    done = replicate 4 false;
    wait = 0;
    base = arm_reset;
    trial = arm_reset;
    monitor_ref_s = lit 0 0;
    start_mean_s = lit 0 0;
    start_misses = 0;
    start_known = false;
    probes = 0;
    accepted = 0;
    throws = 0;
    last_gain_s = lit 0 0;
  }
