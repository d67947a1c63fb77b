-- ===== src/LearnMode/Tests.antt =====
-- A scale that stays at 0.5, until the loop of auto_zero gives up.
use open_trickler_rp2040_con.Prelude.{ℕ, ◌≡◌, refl, true, false, some, List, [], ◌∷◌, ◌++◌}
use open_trickler_rp2040_con.Prelude.Int.{ℤ}
use open_trickler_rp2040_con.Float.{fixed, lit}
use open_trickler_rp2040_con.ChargeMode.State.{normal, ChargeData, encoder_pressed, Pass}
use open_trickler_rp2040_con.ChargeMode.World.{Spell}
use open_trickler_rp2040_con.LearnMode.{failed, forget, zero_loop, rezero, tare}

abbrev settings : ChargeData ℤ
settings = record {
  coarse_stop_threshold = lit 5 0;
  set_point_sd_margin = lit 2 2;
  set_point_mean_margin = lit 2 2;
  coarse_stop_gate_ratio = lit 5 1;
  coarse_stop_backoff_enable = true;
  coarse_stop_backoff_turns = lit 25 2;
  coarse_stop_backoff_speed_rps = lit 1 0;
  precharge_enable = false;
  precharge_time_ms = 0;
  precharge_speed_rps = lit 0 0;
  bracket_mode = normal;
  normal_bracket_steps = 3;
  match_bracket_steps = 1;
  learn_enable = true;
  predict_enable = false;
  coarse_lag_s = lit 35 2;
  fine_lag_s = lit 35 2;
  auto_lag_enable = true;
  coarse_tail_sd_gr = lit 0 0;
}

abbrev pass_at : ℕ → Pass ℤ
pass_at tick = record {
  button = encoder_pressed;
  measurement = some (lit 5 1);
  head = tick;
  now = tick;
  after = tick;
}

abbrev passes : List (Pass ℤ)
passes = pass_at 200 ∷ pass_at 700 ∷ pass_at 1200 ∷ []

abbrev zeroing : Spell ℤ
zeroing = record {
  start = 0;
  began = 0;
  latest = lit 0 0;
  memory = [];
  passes = passes ++ pass_at 60200 ∷ [];
  finish = 0;
}

-- The knob sends at once, first a re-zero and then a tare.
sent_in_turn : forget (zero_loop settings true zeroing) ≡ some (failed, rezero ∷ tare ∷ rezero ∷ [])
unfolding zero_loop
sent_in_turn = refl
