-- ===== src/ChargeMode/Zero.antt =====
-- charge_mode_wait_for_zero and charge_mode_wait_for_cup_return, the two waits in which the encoder
-- zeroes the scale.
pub mod Readings
use open_trickler_rp2040_con.Prelude.{
  ℕ, Bool, true, false, ◌&&◌, if◌then◌else◌, Option, none, some, List, ◌∷◌,
}
use open_trickler_rp2040_con.Float.{Floats, lit, lt, le, fabs}
use open_trickler_rp2040_con.RingBuffer.Ring.{FloatRingBuffer, create, enqueue, get_mean}
use open_trickler_rp2040_con.ChargeMode.State.{
  ChargeData, exit, wait_for_zero, wait_for_complete, Button, no_event, rst_pressed,
  encoder_pressed, rotated, Pass,
}
use open_trickler_rp2040_con.ChargeMode.Motors.{Command, Commands, led, not_ready, force_zero}
use open_trickler_rp2040_con.ChargeMode.World.{Machine, Spell, with_state, tell}
use open_trickler_rp2040_con.ChargeMode.Phase.{Poll, again, out, poll, Phase, waiting, left, done}
use open_trickler_rp2040_con.ChargeMode.Charge.{is_rst}
use open_trickler_rp2040_con.ChargeMode.Settle.{steady}

-- The loops' variable, and the commands so far.
pub record Zeroing (F : Type 0) : Type 0 where
  pub ring : FloatRingBuffer F
  pub commands : Commands F

-- The button of a pass: the encoder asks the scale for zero.
unfoldable pub press : {F : Type 0} → Button → Commands F → Commands F
press no_event cs = cs
press rst_pressed cs = cs
press encoder_pressed cs = force_zero ∷ cs
press rotated cs = cs

module _ {F : Type 0} ⦃fl : Floats F⦄ where
  open fl use {D}

  unfoldable pub enqueue_reading : Option F → FloatRingBuffer F → FloatRingBuffer F
  unfolding enqueue
  enqueue_reading none ring = ring
  enqueue_reading (some x) ring = enqueue x ring

  -- The full window is quiet and near zero.
  unfoldable pub at_zero : ChargeData F → FloatRingBuffer F → Bool
  unfolding steady get_mean
  at_zero c ring =
      steady 10 c.set_point_sd_margin ring && lt (fabs (get_mean ring)) c.set_point_mean_margin

  -- The result holds the commands, and whether zero was seen (not the button).
  unfoldable pub zero_pass :
      ChargeData F → Pass F → Zeroing F → Poll (Zeroing F) (Bool × Commands F)
  unfolding press enqueue_reading at_zero
  zero_pass c p s =
      let commands = press p.button s.commands in
      let ring = enqueue_reading p.measurement s.ring in
      if is_rst p.button
      then out (false, s.commands)
      else if at_zero c ring
      then out (true, commands)
      else again (record { ring = ring; commands = commands })

  unfoldable pub returned : Commands F → Option F → Poll (Commands F) (Bool × Commands F)
  returned cs none = again cs
  returned cs (some x) = if le (lit 0 0) x then out (true, cs) else again cs

  unfoldable pub return_pass : Pass F → Commands F → Poll (Commands F) (Bool × Commands F)
  unfolding press returned
  return_pass p cs =
      let commands = press p.button cs in
      if is_rst p.button then out (false, cs) else returned commands p.measurement

module _ {F D : Type 0} where
  -- Behind either loop.
  unfoldable pub end_wait : Machine F D → Option (Bool × Commands F) → Phase F D Unit
  end_wait next none m = waiting
  end_wait next (some (false, cs)) m = left (with_state exit (record m { commands = cs }))
  end_wait next (some (true, cs)) m = done tt (record next { commands = cs })

module _ {F : Type 0} ⦃fl : Floats F⦄ where
  open fl use {D}

  unfoldable pub charge_mode_wait_for_zero : Spell F → Phase F D Unit
  unfolding zero_pass poll create end_wait
  charge_mode_wait_for_zero s m =
      let ready = tell (led not_ready) m in
      let first : Zeroing F = record { ring = create 10 s.memory; commands = ready.commands } in
      end_wait (with_state wait_for_complete ready) (poll (zero_pass m.settings) s.passes first)
        ready

  unfoldable pub charge_mode_wait_for_cup_return : Spell F → Phase F D Unit
  unfolding return_pass poll end_wait
  charge_mode_wait_for_cup_return s m =
      let ready = tell (led not_ready) m in
      end_wait (with_state wait_for_zero ready) (poll return_pass s.passes ready.commands) ready
