-- ===== src/ServoGate.antt =====
-- servo_gate.c: requests of a ratio, and the task that moves the two shutters. The RTOS queue has one
-- place and the semaphore is binary.
pub mod Moves
mod Tests
use Prim.Native.Nat.{◌+◌ as nat_add, ◌-◌ as nat_sub, ◌%◌}
use open_trickler_rp2040_con.Prelude.{
  ℕ, Bool, true, false, leb, ltb, if◌then◌else◌, Option, none, some, List, [], ◌∷◌,
}
use open_trickler_rp2040_con.Float.{
  Floats, lit, of_nat, neg, ◌+◌, ◌-◌, ◌*◌, ◌/◌, lt, le, eq, fabs, trunc,
}

pub data GateState : Type 0 where
  gate_disabled gate_close gate_open : GateState

-- `eeprom_servo_gate_config_t`, but for its revision.
pub record GateConfig (F : Type 0) : Type 0 where
  pub servo_gate_enable : Bool
  pub shutter0_close_duty_cycle : F
  pub shutter0_open_duty_cycle : F
  pub shutter1_close_duty_cycle : F
  pub shutter1_open_duty_cycle : F
  pub shutter_close_speed_pct_s : F
  pub shutter_open_speed_pct_s : F

-- `servo_gate_t` with the task's local variable, the queue's place and the semaphore; and the ratios
-- that the shutters were set to so far, the newest first.
pub record Gate (F : Type 0) : Type 0 where
  pub config : GateConfig F
  pub gate_state : GateState
  pub gate_ratio : F
  pub prev_open_ratio : F
  pub control_queue : Option F
  pub move_ready : Bool
  pub positions : List F

-- `now - start` on uint32_t.
abbrev pub elapsed : ℕ → ℕ → ℕ
elapsed now start = nat_sub (nat_add now 4294967296) start % 4294967296

module _ {F : Type 0} ⦃fl : Floats F⦄ where
  unfoldable pub clamp01 : F → F
  clamp01 x = if lt x (lit 0 0) then lit 0 0 else if lt (lit 10 1) x then lit 10 1 else x

  abbrev pub ratio_disabled : F
  ratio_disabled = neg (lit 10 1)

  abbrev pub unknown_ratio : F
  unknown_ratio = neg (lit 20 1)

  -- The levels of the two shutters at a ratio, each a uint16_t.
  unfoldable pub servo_gate_levels : GateConfig F → F → ℕ × ℕ
  servo_gate_levels c open_ratio =
      let range0 = c.shutter0_close_duty_cycle - c.shutter0_open_duty_cycle in
      let range1 = c.shutter1_close_duty_cycle - c.shutter1_open_duty_cycle in
      (
        trunc (of_nat 65535 * (c.shutter0_open_duty_cycle + range0 * open_ratio)),
        trunc (of_nat 65535 * (c.shutter1_open_duty_cycle + range1 * open_ratio)),
      )

  abbrev pub set_current_state : F → Gate F → Gate F
  set_current_state ratio g = record g { positions = ratio ∷ g.positions }

  -- Up to the wait for the semaphore, if the caller asked for it.
  unfoldable pub servo_gate_set_ratio : F → Gate F → Gate F
  unfolding clamp01
  servo_gate_set_ratio ratio g =
      let r = if eq ratio ratio_disabled then ratio_disabled else clamp01 ratio in
      record g { move_ready = false; control_queue = some r }

  -- The loop of a ramp over the times that it reads; `none` while it still runs.
  unfoldable pub ramp : F → F → ℕ → ℕ → List ℕ → Gate F → Option (Gate F)
  ramp prev delta ramp_time_us start [] g = none
  ramp prev delta ramp_time_us start (now ∷ times) g =
      let elapsed_us = elapsed now start in
      let percentage = of_nat elapsed_us / of_nat ramp_time_us in
      let rest =
        ramp prev delta ramp_time_us start times
          (set_current_state (prev + delta * percentage) g) in
      if leb ramp_time_us elapsed_us then some g else rest

  unfoldable pub ramp_time : GateConfig F → F → ℕ
  ramp_time c delta =
      let speed =
        if lt delta (lit 0 0) then c.shutter_open_speed_pct_s else c.shutter_close_speed_pct_s in
      let floored = if lt speed (lit 1 4) then lit 1 4 else speed in
      trunc (fabs (delta / floored) * of_nat 1000000)

  -- Behind the ramp, the last position.
  abbrev pub arrive : F → Option (Gate F) → Option (Gate F)
  arrive new_ratio none = none
  arrive new_ratio (some g) = some (set_current_state new_ratio g)

  -- The move to a clamped ratio.
  unfoldable pub move : F → ℕ → List ℕ → Gate F → Option (Gate F)
  unfolding ramp ramp_time
  move new_ratio start times g =
      let delta = new_ratio - g.prev_open_ratio in
      let us = ramp_time g.config delta in
      if eq g.prev_open_ratio unknown_ratio
      then some (set_current_state new_ratio g)
      else if lt (lit 1 4) (fabs delta)
      then (if ltb us 1000
          then some (set_current_state new_ratio g)
          else arrive new_ratio (ramp g.prev_open_ratio delta us start times g))
      else some g

  -- What the task records behind a move.
  unfoldable pub report : F → Gate F → Gate F
  report new_ratio g = record g {
    gate_state =
        if le new_ratio (lit 1 4)
        then gate_open
        else if le (lit 9999 4) new_ratio
        then gate_close
        else g.gate_state;
    prev_open_ratio = new_ratio;
    gate_ratio = new_ratio;
    move_ready = true;
  }

  abbrev pub finish_move : F → Option (Gate F) → Option (Gate F)
  finish_move new_ratio none = none
  finish_move new_ratio (some g) = some (report new_ratio g)

  -- A pass of servo_gate_control_task over the ratio it has received, with the times it reads.
  unfoldable pub handle : F → ℕ → List ℕ → Gate F → Option (Gate F)
  unfolding move report clamp01
  handle ratio start times g =
      if eq ratio ratio_disabled
      then some (record g { gate_state = gate_disabled; move_ready = true })
      else finish_move (clamp01 ratio) (move (clamp01 ratio) start times g)

  abbrev pub receive : (F → Option (Gate F)) → Option F → Option (Gate F)
  receive serve none = none
  receive serve (some ratio) = serve ratio

  -- The pass: it waits where the queue is empty.
  unfoldable pub servo_gate_control_task : ℕ → List ℕ → Gate F → Option (Gate F)
  unfolding handle
  servo_gate_control_task start times g =
      receive (λ ratio. handle ratio start times (record g { control_queue = none }))
        g.control_queue
