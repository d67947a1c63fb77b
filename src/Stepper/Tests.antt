-- ===== src/Stepper/Tests.antt =====
-- A motor that turns forwards and is told to turn backwards.
use Prim.Native.Nat.{◌/◌}
use open_trickler_rp2040_con.Prelude.{ℕ, refl, false, Then, [], ◌∷◌}
use open_trickler_rp2040_con.Prelude.Int.{ℤ, neg, pos_part}
use open_trickler_rp2040_con.Float.{fixed, fixed_arith, lit}
use open_trickler_rp2040_con.Stepper.{Stepper, Clock, ramp_time, stepper_speed_control_task}
use open_trickler_rp2040_con.Stepper.Turns.{Turned, stepper_speed_control_task-Turned}

-- Numbers of the fixed-point instance, rounded down.
abbrev lroundf : ℤ → ℕ
lroundf z = pos_part z / 10000

abbrev motor : Stepper ℤ
motor = record {
  config = record {
    full_steps_per_rotation = 200;
    microsteps = 256;
    angular_acceleration = lit 50 0;
    gear_ratio = lit 1 0;
    inverted_direction = false;
  };
  prev_velocity = lit 2 0;
  step_direction = false;
  dir_pin = false;
  periods = [];
}

abbrev clock : Clock
clock = record { start = 100; times = 5100 ∷ 20100 ∷ 1000100 ∷ [] }

stepper_speed_control_task-Turned_example :
    Then
      (Turned lroundf motor (neg (lit 1 0)) 125000000)
      (stepper_speed_control_task lroundf (neg (lit 1 0)) 125000000 clock clock motor)
unfolding ramp_time fixed_arith
stepper_speed_control_task-Turned_example =
    stepper_speed_control_task-Turned lroundf (neg (lit 1 0)) 125000000 clock clock motor
      (refl, refl) refl refl refl
