-- ===== src/LearnMode/Examples.antt =====
-- The run that the tests start from: two throws that were measured, and a learner that holds them.
use open_trickler_rp2040_con.Prelude.{true, false, replicate, arith}
use open_trickler_rp2040_con.Prelude.Int.{ℤ}
use open_trickler_rp2040_con.Float.{fixed, fixed_arith, lit}
use open_trickler_rp2040_con.ChargeMode.Examples.{machine}
use open_trickler_rp2040_con.Tuner.Limits.{Irreflexive}
use open_trickler_rp2040_con.LearnMode.State.{LearnState, LearnThrow, Learner}
use open_trickler_rp2040_con.LearnMode.Proposal.{no_result}

abbrev coarse_throw : LearnThrow ℤ
coarse_throw = record {
  speed_rps = lit 10 1;
  time_s = lit 20 1;
  stop_weight = lit 60 1;
  settled_weight = lit 80 1;
  flow_gps = lit 40 1;
  tail = lit 20 1;
  rate_at_stop = lit 40 1;
  lag_s = lit 5 1;
  dead_time_s = lit 3 1;
}

abbrev fine_throw : LearnThrow ℤ
fine_throw = record {
  speed_rps = lit 20 1;
  time_s = lit 40 1;
  stop_weight = lit 14 1;
  settled_weight = lit 16 1;
  flow_gps = lit 4 1;
  tail = lit 2 1;
  rate_at_stop = lit 4 1;
  lag_s = lit 5 1;
  dead_time_s = lit 3 1;
}

abbrev pub learner : Learner ℤ ℤ
learner = record {
  machine = record machine {
    learn_config = record machine.learn_config { time_goal_s = lit 600 1 };
  };
  has_force_zero = true;
  state = LearnState.fit;
  throw_idx = 11;
  current_speed = lit 10 1;
  coarse_throws = replicate 12 coarse_throw;
  fine_throws = replicate 12 fine_throw;
  result = no_result;
  cup_load_gr = lit 0 0;
  result_valid = false;
  applied_to_profile = false;
  max_settled_coarse = lit 80 1;
  max_settled_fine = lit 16 1;
}

pub irreflexive : Irreflexive fixed
unfolding fixed_arith
irreflexive x = ground arith
