-- ===== src/ServoGate/Tests.antt =====
-- A gate that is closed from open in a third of a second.
use open_trickler_rp2040_con.Prelude.{ℕ, true, some, List, [], ◌∷◌}
use open_trickler_rp2040_con.Prelude.Int.{ℤ}
use open_trickler_rp2040_con.Float.{fixed, lit}
use open_trickler_rp2040_con.ServoGate.{Gate, gate_open}

abbrev gate : Gate ℤ
gate = record {
  config = record {
    servo_gate_enable = true;
    shutter0_close_duty_cycle = lit 9 2;
    shutter0_open_duty_cycle = lit 5 2;
    shutter1_close_duty_cycle = lit 5 2;
    shutter1_open_duty_cycle = lit 9 2;
    shutter_close_speed_pct_s = lit 3 0;
    shutter_open_speed_pct_s = lit 5 0;
  };
  gate_state = gate_open;
  gate_ratio = lit 0 0;
  prev_open_ratio = lit 0 0;
  control_queue = some (lit 1 0);
  move_ready = true;
  positions = lit 0 0 ∷ [];
}

abbrev times : List ℕ
times = 100100 ∷ 200100 ∷ []
