-- ===== src/CleanupMode.antt =====
-- cleanup_mode.cpp: the mode that runs both tubes at a speed set by the encoder or by a REST request.
-- The requests come from another task, between the events.
pub mod Speed
mod Tests
use open_trickler_rp2040_con.Prelude.{
  ℕ, Bool, true, false, not, ◌&&◌, ◌==◌, if◌then◌else◌, List, [], ◌∷◌,
}
use open_trickler_rp2040_con.Float.{Floats, lit, ◌+◌, ◌-◌}
use open_trickler_rp2040_con.ChargeMode.Motors.{
  coarse, fine, both, Commands, set_ratio, motor_set_speed, motor_enable,
}
use open_trickler_rp2040_con.Profile.{Readers}

-- ButtonEncoderEvent_t, as far as the loop tells its values apart.
pub data Event : Type 0 where
  rst_pressed rotate_cw rotate_ccw encoder_pressed override_from_rest other_event : Event

-- The keys that the handler knows, with their values' texts.
pub data Key : Type 0 where
  s0 s1 other_key : Key

pub record Param : Type 0 where
  pub key : Key
  pub value : List ℕ

-- What the loop meets next: an event from the queue, or a parameter of a request.
pub data Input : Type 0 where
  event : Event → Input
  request : Param → Input

-- `cleanup_mode_config`, the events that requests put in the queue, and whether one has asked the menu
-- to enter the mode. The state is a number, as the request gives it: 0 exit, 1 enter.
pub record Cleanup (F : Type 0) : Type 0 where
  pub cleanup_mode_state : ℕ
  pub trickler_speed : F
  pub gate_enabled : Bool
  pub commands : Commands F
  pub sent : List Event
  pub exit_to_cleanup : Bool

module _ {F : Type 0} ⦃fl : Floats F⦄ where
  -- The speed changes and both motors are told.
  unfoldable pub drive_both : F → Cleanup F → Cleanup F
  unfolding motor_set_speed
  drive_both v c = record c { trickler_speed = v; commands = motor_set_speed both v c.commands }

  -- The `switch` of the loop, with `quit`.
  unfoldable pub cleanup_event : Event → Cleanup F → Bool × Cleanup F
  unfolding drive_both
  cleanup_event rst_pressed c = (true, drive_both (lit 0 0) c)
  cleanup_event rotate_cw c = (false, drive_both (c.trickler_speed + lit 1 0) c)
  cleanup_event rotate_ccw c = (false, drive_both (c.trickler_speed - lit 1 0) c)
  cleanup_event encoder_pressed c = (false, drive_both (lit 0 0) c)
  cleanup_event override_from_rest c = (false, c)
  cleanup_event other_event c = (false, c)

  -- Before the loop; the gate opens unless it is off.
  unfoldable pub cleanup_enter : Cleanup F → Cleanup F
  unfolding motor_enable
  cleanup_enter c =
      let enabled = motor_enable fine true (motor_enable coarse true c.commands) in
      record c {
        cleanup_mode_state = 1;
        trickler_speed = lit 0 0;
        commands = if c.gate_enabled then set_ratio (lit 0 0) true ∷ enabled else enabled;
      }

  unfoldable pub cleanup_leave : Cleanup F → Cleanup F
  unfolding motor_enable
  cleanup_leave c = record c {
    cleanup_mode_state = 0;
    commands = motor_enable fine false (motor_enable coarse false c.commands);
  }

  module _ (readers : Readers F) where
    -- A parameter of http_rest_cleanup_mode_state.
    unfoldable pub cleanup_param : Param → Cleanup F → Cleanup F
    unfolding drive_both
    cleanup_param p c =
        let state = readers.atoi p.value in
        elim p.key [
          | s0 ↦ (record c {
            cleanup_mode_state = state;
            sent =
                if state == 0 && not (c.cleanup_mode_state == 0)
                then rst_pressed ∷ c.sent
                else if state == 1 && not (c.cleanup_mode_state == 1)
                then override_from_rest ∷ c.sent
                else c.sent;
            exit_to_cleanup =
                if state == 1 && not (c.cleanup_mode_state == 1) then true else c.exit_to_cleanup;
          })
          | s1 ↦ drive_both (readers.strtof p.value) c
          | other_key ↦ c
        ]

    unfoldable pub http_rest_cleanup_mode_state : List Param → Cleanup F → Cleanup F
    unfolding cleanup_param
    http_rest_cleanup_mode_state [] c = c
    http_rest_cleanup_mode_state (p ∷ ps) c = http_rest_cleanup_mode_state ps (cleanup_param p c)

    -- The loop over what it meets, and whether it has quit.
    unfoldable pub cleanup_loop : List Input → Cleanup F → Bool × Cleanup F
    unfolding cleanup_event cleanup_param
    cleanup_loop [] c = (false, c)
    cleanup_loop (event e ∷ inputs) c =
        let (quit, c') = cleanup_event e c in
        let rest = cleanup_loop inputs c' in if quit then (true, c') else rest
    cleanup_loop (request p ∷ inputs) c = cleanup_loop inputs (cleanup_param p c)

    -- The mode, and whether it has been left.
    unfoldable pub cleanup_mode_menu : List Input → Cleanup F → Bool × Cleanup F
    unfolding cleanup_enter cleanup_loop cleanup_leave
    cleanup_mode_menu inputs c =
        let (quit, c') = cleanup_loop inputs (cleanup_enter c) in
        if quit then (true, cleanup_leave c') else (false, c')
