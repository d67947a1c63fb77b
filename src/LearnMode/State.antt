-- ===== src/LearnMode/State.antt =====
-- learn_mode.h: the states of a learn run, its throws and its result, and the mode's variable. The
-- messages for the display are not modelled.
use open_trickler_rp2040_con.Prelude.{ℕ, Bool, Option, none, some, List}
use open_trickler_rp2040_con.Float.{Floats, lit}
use open_trickler_rp2040_con.ChargeMode.World.{Machine}
use open_trickler_rp2040_con.ChargeMode.Phase.{Outcome, waiting, left, Routine}
use open_trickler_rp2040_con.LearnMode.{End}

-- `learn_state_t`
pub data LearnState : Type 0 where
  idle wait_for_zero coarse fine fit confirm done aborted error empty_cup : LearnState

-- `learn_throw_t`
pub record LearnThrow (F : Type 0) : Type 0 where
  pub speed_rps : F
  pub time_s : F
  pub stop_weight : F
  pub settled_weight : F
  pub flow_gps : F
  pub tail : F
  pub rate_at_stop : F
  pub lag_s : F
  pub dead_time_s : F

-- `learn_result_t`
pub record LearnResult (F : Type 0) : Type 0 where
  pub coarse_tail_per_rps : F
  pub fine_tail_per_rps : F
  pub coarse_lag_s : F
  pub fine_lag_s : F
  pub lag_used_s : F
  pub lag_sd_s : F
  pub dead_time_s : F
  pub predict_used : Bool
  pub coarse_k : F
  pub coarse_tail_at_max : F
  pub coarse_tail_sd_at_max : F
  pub fine_k : F
  pub fine_tail_at_max : F
  pub fine_tail_sd_at_max : F
  pub coarse_min_rps : F
  pub coarse_max_rps : F
  pub coarse_kp : F
  pub fine_min_rps : F
  pub fine_max_rps : F
  pub fine_kp : F
  pub fine_taper_gr : F
  pub coarse_taper_gr : F
  pub coarse_stop_threshold : F
  pub predicted_coarse_s : F
  pub predicted_fine_s : F
  pub predicted_total_s : F
  pub meets_time_goal : Bool
  pub confirm_total : ℕ
  pub confirm_pass : ℕ
  pub confirm_avg_time : F
  pub confirm_rounds : ℕ
  pub confirm_met : Bool

-- `learn_mode_t` and the file's statics, on the machine that the charge mode shares. Its configuration
-- is the machine's `learn_config`. `has_force_zero` is the scale driver's.
pub record Learner (F D : Type 0) : Type 0 where
  pub machine : Machine F D
  pub has_force_zero : Bool
  pub state : LearnState
  pub throw_idx : ℕ
  pub current_speed : F
  pub coarse_throws : List (LearnThrow F)
  pub fine_throws : List (LearnThrow F)
  pub result : LearnResult F
  pub cup_load_gr : F
  pub result_valid : Bool
  pub applied_to_profile : Bool
  pub max_settled_coarse : F
  pub max_settled_fine : F

abbrev pub throws_per_phase : ℕ
throws_per_phase = 12

-- A routine of the learn mode: `left` is its result `false`.
abbrev pub Learning : Type 0 → Type 0 → Type 0 → Type 0
Learning F D A = Routine (Learner F D) A

module _ {F D : Type 0} where
  abbrev pub with_learn_state : LearnState → Learner F D → Learner F D
  with_learn_state st l = record l { state = st }

  abbrev pub with_machine : (Machine F D → Machine F D) → Learner F D → Learner F D
  with_machine f l = record l { machine = f l.machine }

  -- What the end of a wait makes of the state.
  unfoldable pub end_wait : {A : Type 0} → Option (End × A) → Learning F D A
  end_wait none l = waiting
  end_wait (some (End.ready, a)) l = Outcome.done a l
  end_wait (some (End.aborted, a)) l = left (with_learn_state LearnState.aborted l)
  end_wait (some (End.failed, a)) l = left (with_learn_state LearnState.error l)

module _ {F : Type 0} ⦃fl : Floats F⦄ where
  -- `memset` to zero.
  abbrev pub no_throw : LearnThrow F
  no_throw = record {
    speed_rps = lit 0 0;
    time_s = lit 0 0;
    stop_weight = lit 0 0;
    settled_weight = lit 0 0;
    flow_gps = lit 0 0;
    tail = lit 0 0;
    rate_at_stop = lit 0 0;
    lag_s = lit 0 0;
    dead_time_s = lit 0 0;
  }
