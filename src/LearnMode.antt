-- ===== src/LearnMode.antt =====
-- learn_mode.cpp: the waits of the learn sequence, until the scale holds still and until it reads zero.
pub mod State
pub mod Cup
pub mod Throw
pub mod Fit
pub mod Search
pub mod Proposal
pub mod Ladder
pub mod Confirm
pub mod Menu
pub mod Request
pub mod Zeroing
mod Tests
mod Examples
mod Fits
mod Runs
use Prim.Native.Nat.{◌+◌, ◌%◌}
use open_trickler_rp2040_con.Prelude.{
  ℕ, Bool, true, false, ◌&&◌, ◌||◌, leb, ltb, ◌==◌, if◌then◌else◌, Option, none, some, List, [],
  ◌∷◌,
}
use open_trickler_rp2040_con.Float.{Floats, lt, fabs}
use open_trickler_rp2040_con.RingBuffer.Ring.{FloatRingBuffer, create, enqueue, get_mean}
use open_trickler_rp2040_con.ChargeMode.State.{
  ChargeData, Button, no_event, rst_pressed, encoder_pressed, rotated, Pass, tick_add,
}
use open_trickler_rp2040_con.ChargeMode.World.{Spell}
use open_trickler_rp2040_con.ChargeMode.Phase.{Poll, again, out, poll}
use open_trickler_rp2040_con.ChargeMode.Charge.{is_rst}
use open_trickler_rp2040_con.ChargeMode.Settle.{steady}
use open_trickler_rp2040_con.ChargeMode.Zero.{enqueue_reading}

-- How a wait ends: as it should, with LEARN_STATE_ABORTED by the button, or with LEARN_STATE_ERROR.
pub data End : Type 0 where
  ready aborted failed : End

-- What auto_zero sends.
pub data ZeroCommand : Type 0 where
  rezero tare : ZeroCommand

-- The variables of auto_zero's loop, and what it sent, the newest first.
pub record ZeroLoop (F : Type 0) : Type 0 where
  pub ring : FloatRingBuffer F
  pub tries : ℕ
  pub samples_since_send : ℕ
  pub force_send : Bool
  pub next_send : ℕ
  pub sent : List ZeroCommand

abbrev pub is_encoder : Button → Bool
is_encoder no_event = false
is_encoder rst_pressed = false
is_encoder encoder_pressed = true
is_encoder rotated = false

abbrev pub learn_zero_max_tries : ℕ
learn_zero_max_tries = 12

-- The command of a try, re-zero and tare in turn; a driver may have no re-zero.
abbrev pub next_command : Bool → ℕ → List ZeroCommand → List ZeroCommand
next_command has_force_zero tries sent =
    if tries % 2 == 0 then (if has_force_zero then rezero ∷ sent else sent) else tare ∷ sent

module _ {F : Type 0} where
  -- `knob` is the encoder's press in this pass.
  unfoldable pub press_knob : Bool → ZeroLoop F → ZeroLoop F
  press_knob knob z = if knob then record z { next_send = 0; force_send = true } else z

  abbrev pub count_sample : Option F → ℕ → ℕ
  count_sample none n = n
  count_sample (some x) n = if ltb n 1000 then n + 1 else n

  unfoldable pub send_zero : Bool → ℕ → ZeroLoop F → ZeroLoop F
  send_zero has_force_zero last_tick z = record z {
    tries = z.tries + 1;
    samples_since_send = 0;
    force_send = false;
    next_send = tick_add last_tick 2500;
    sent = next_command has_force_zero z.tries z.sent;
  }

module _ {F : Type 0} ⦃fl : Floats F⦄ where
  unfoldable pub take_sample : Option F → ZeroLoop F → ZeroLoop F
  unfolding enqueue_reading
  take_sample m z = record z {
    ring = enqueue_reading m z.ring;
    samples_since_send = count_sample m z.samples_since_send;
  }

  -- A pass of wait_for_stable, whose tick is the pass's head.
  unfoldable pub stable_pass :
      F → ℕ → Pass F → FloatRingBuffer F → Poll (FloatRingBuffer F) (End × F)
  unfolding steady enqueue_reading get_mean
  stable_pass margin deadline p ring =
      let ring' = enqueue_reading p.measurement ring in
      if is_rst p.button
      then out (aborted, get_mean ring)
      else if ltb deadline p.head
      then out (failed, get_mean ring)
      else if steady 8 margin ring'
      then out (ready, get_mean ring')
      else again ring'

  -- How it ended, with what it settled at where it is ready.
  unfoldable pub wait_for_stable : ChargeData F → Spell F → Option (End × F)
  unfolding stable_pass poll create
  wait_for_stable c s =
      poll (stable_pass c.set_point_sd_margin (tick_add s.start 30000)) s.passes (create 8 s.memory)

  -- The rest of a pass of auto_zero, behind the reading.
  unfoldable pub judge_zero :
      ChargeData F → Bool → ℕ → ZeroLoop F → Poll (ZeroLoop F) (End × ZeroLoop F)
  unfolding steady get_mean send_zero
  judge_zero c has_force_zero last_tick z =
      let is_steady = steady 6 c.set_point_sd_margin z.ring in
      if is_steady
        && (leb 6 z.samples_since_send && lt (fabs (get_mean z.ring)) c.set_point_mean_margin)
      then out (ready, z)
      else if leb z.next_send last_tick && (is_steady || z.force_send)
      then again (send_zero has_force_zero last_tick z)
      else again z

  unfoldable pub zero_pass :
      ChargeData F → Bool → ℕ → Pass F → ZeroLoop F → Poll (ZeroLoop F) (End × ZeroLoop F)
  unfolding press_knob take_sample judge_zero
  zero_pass c has_force_zero deadline p z =
      let pressed = press_knob (is_encoder p.button) z in
      if is_rst p.button
      then out (aborted, z)
      else if ltb deadline p.head || leb learn_zero_max_tries z.tries
      then out (failed, pressed)
      else judge_zero c has_force_zero p.head (take_sample p.measurement pressed)

  unfoldable pub first_zero : Spell F → ZeroLoop F
  unfolding create
  first_zero s = record {
    ring = create 6 s.memory;
    tries = 0;
    samples_since_send = 0;
    force_send = false;
    next_send = 0;
    sent = [];
  }

  unfoldable pub zero_loop : ChargeData F → Bool → Spell F → Option (End × ZeroLoop F)
  unfolding zero_pass poll first_zero
  zero_loop c has_force_zero s =
      poll (zero_pass c has_force_zero (tick_add s.start 60000)) s.passes (first_zero s)

  -- Behind the first wait, the loop runs only where the reading has settled.
  abbrev pub after_stable :
      Option (End × List ZeroCommand) → Option (End × F) → Option (End × List ZeroCommand)
  after_stable zero none = none
  after_stable zero (some (ready, x)) = zero
  after_stable zero (some (aborted, x)) = some (aborted, [])
  after_stable zero (some (failed, x)) = some (failed, [])

  abbrev pub forget : Option (End × ZeroLoop F) → Option (End × List ZeroCommand)
  forget none = none
  forget (some (e, z)) = some (e, z.sent)

  -- How it ended, with what it sent.
  unfoldable pub auto_zero :
      ChargeData F → Bool → Spell F → Spell F → Option (End × List ZeroCommand)
  unfolding wait_for_stable zero_loop
  auto_zero c has_force_zero settling zeroing =
      after_stable (forget (zero_loop c has_force_zero zeroing)) (wait_for_stable c settling)
