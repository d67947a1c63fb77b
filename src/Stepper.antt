-- ===== src/Stepper.antt =====
-- motors.c: the task that turns a speed into periods of the step signal, with its ramps, for one motor.
-- The PIO's queue is cleared before every period, so the newest one is in force.
pub mod Turns
mod Tests
use Prim.Native.Nat.{◌+◌ as nat_add, ◌-◌ as nat_sub, ◌*◌ as nat_mul, ◌%◌}
use open_trickler_rp2040_con.Prelude.{
  ℕ, Bool, true, false, not, ◌||◌, leb, ltb, ◌==◌, if◌then◌else◌, Option, none, some, List, [], ◌∷◌,
}
use open_trickler_rp2040_con.Float.{
  Floats, lit, of_nat, ◌+◌, ◌-◌, ◌*◌, ◌/◌, lt, le, fabs, is_finite, trunc,
}

-- The part of `motor_persistent_config_t` that the task reads.
pub record MotorConfig (F : Type 0) : Type 0 where
  pub full_steps_per_rotation : ℕ
  pub microsteps : ℕ
  pub angular_acceleration : F
  pub gear_ratio : F
  pub inverted_direction : Bool

-- The live part of `motor_config_t`, the level of the direction pin, and the periods given to the PIO,
-- the newest first.
pub record Stepper (F : Type 0) : Type 0 where
  pub config : MotorConfig F
  pub prev_velocity : F
  pub step_direction : Bool
  pub dir_pin : Bool
  pub periods : List ℕ

-- The times that one ramp reads: its start, then one at the head of every pass.
pub record Clock : Type 0 where
  pub start : ℕ
  pub times : List ℕ

abbrev pub elapsed : ℕ → ℕ → ℕ
elapsed now start = nat_sub (nat_add now 4294967296) start % 4294967296

abbrev pub same : Bool → Bool → Bool
same true b = b
same false b = not b

-- `then` for a ramp: it goes on where the ramp has ended.
abbrev pub after_ramp :
    {F : Type 0} → (Stepper F → Option (Stepper F)) → Option (Stepper F) → Option (Stepper F)
after_ramp next none = none
after_ramp next (some m) = next m

abbrev pub rotation_steps : {F : Type 0} → MotorConfig F → ℕ
rotation_steps c = nat_mul c.full_steps_per_rotation c.microsteps % 4294967296

unfoldable pub toggle_direction : {F : Type 0} → Stepper F → Stepper F
toggle_direction m = record m {
  step_direction = not m.step_direction;
  dir_pin = not m.step_direction;
}

module _ {F : Type 0} ⦃fl : Floats F⦄ where
  open fl use {D, double, widen}

  unfoldable pub ramp_time : MotorConfig F → F → ℕ
  ramp_time c dv =
      let configured = c.angular_acceleration in
      let acceleration =
        if not (is_finite configured) || le configured (lit 0 0) then lit 50 0 else configured in
      double.trunc (double.mul (widen (fabs (dv / acceleration))) (double.of_nat 1000000))

  -- The motor as motor_config_init leaves it.
  unfoldable pub motor_config_init : MotorConfig F → Stepper F
  motor_config_init c = record {
    config = c;
    prev_velocity = lit 0 0;
    step_direction = c.inverted_direction;
    dir_pin = c.inverted_direction;
    periods = [];
  }

  -- lroundf is the C library's, on a value that fits.
  module _ (lroundf : F → ℕ) where
    -- Zero stands for a stopped motor.
    unfoldable pub speed_to_period : F → ℕ → ℕ → ℕ
    speed_to_period speed pio_clock_speed full_rotation_steps =
        let step_speed = of_nat full_rotation_steps * speed in
        let cycles = of_nat pio_clock_speed / step_speed in
        let max_response_steps = trunc {F = F} (of_nat pio_clock_speed * lit 1 2) in
        let full_cycle_count = lroundf cycles in
        let floored = if ltb full_cycle_count 13 then 13 else full_cycle_count in
        if not (is_finite speed)
          || (le speed (lit 0 0) || (full_rotation_steps == 0 || pio_clock_speed == 0))
        then 0
        else if not (is_finite cycles) || lt (of_nat max_response_steps) cycles
        then 0
        else nat_sub floored 13

    unfoldable pub put_speed : F → ℕ → Stepper F → Stepper F
    unfolding speed_to_period
    put_speed speed pio_speed m =
        let period = speed_to_period speed pio_speed (rotation_steps m.config) in
        record m { periods = period ∷ m.periods }

    -- The loop of speed_ramp; `none` while it still runs.
    unfoldable pub ramp_loop : F → F → ℕ → ℕ → ℕ → List ℕ → Stepper F → Option (Stepper F)
    unfolding put_speed
    ramp_loop prev_speed dv ramp_time_us pio_speed start [] m = none
    ramp_loop prev_speed dv ramp_time_us pio_speed start (now ∷ times) m =
        let elapsed_us = elapsed now start in
        let percentage = of_nat elapsed_us / of_nat ramp_time_us in
        let rest =
          ramp_loop prev_speed dv ramp_time_us pio_speed start times
            (put_speed (prev_speed + dv * percentage) pio_speed m) in
        if leb ramp_time_us elapsed_us then some m else rest

    unfoldable pub speed_ramp : F → F → ℕ → Clock → Stepper F → Option (Stepper F)
    unfolding ramp_loop ramp_time put_speed
    speed_ramp prev_speed new_speed pio_speed clock m =
        let dv = new_speed - prev_speed in
        after_ramp (λ m'. some (put_speed new_speed pio_speed m'))
          (ramp_loop prev_speed dv (ramp_time m.config dv) pio_speed clock.start clock.times m)

    -- A pass of stepper_speed_control_task over the velocity that it received; the second clock is that of
    -- the ramp up behind a change of direction.
    unfoldable pub stepper_speed_control_task :
        F → ℕ → Clock → Clock → Stepper F → Option (Stepper F)
    unfolding speed_ramp toggle_direction
    stepper_speed_control_task velocity pio_speed clock clock' m =
        let v = velocity / m.config.gear_ratio in
        let speed = fabs m.prev_velocity in
        let remember : Stepper F → Option (Stepper F) =
          λ m'. some (record m' { prev_velocity = v }) in
        if same (le (lit 0 0) v) (le (lit 0 0) m.prev_velocity)
        then after_ramp remember (speed_ramp speed (fabs v) pio_speed clock m)
        else after_ramp remember (
            after_ramp (λ m'. speed_ramp (lit 0 0) (fabs v) pio_speed clock' (toggle_direction m'))
              (speed_ramp speed (lit 0 0) pio_speed clock m))
