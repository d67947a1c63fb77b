-- ===== src/ChargeMode/Menu/Motion.antt =====
-- Between the phases, and behind the menu, both motors stand still.
use Prim.Native.Nat.{◌%◌}
use open_trickler_rp2040_con.Prelude.{
  ℕ, ◌≡◌, refl, inl, Bool, true, false, if-holds, Option, none, some, arith,
}
use open_trickler_rp2040_con.Float.{Floats, lit, le, ◌-◌}
use open_trickler_rp2040_con.SessionStats.{ThrowResult, pass, under, over}
use open_trickler_rp2040_con.ChargeMode.State.{
  ChargeState, exit, wait_for_zero, wait_for_complete, wait_for_cup_removal, wait_for_cup_return,
  ChargeData, charge_mode_get_active_bracket, Pass, Button, no_event, rst_pressed, encoder_pressed,
  rotated,
}
use open_trickler_rp2040_con.ChargeMode.Motors.{
  fine, led, not_ready, Commands, motor_set_speed, coarse_speed, fine_speed,
}
use open_trickler_rp2040_con.ChargeMode.World.{
  Machine, Spell, with_state, tell, profile_get_selected,
}
use open_trickler_rp2040_con.ChargeMode.Phase.Rules.{
  Ends, Around, Result, poll-Result, with_profile-Ends,
}
use open_trickler_rp2040_con.ChargeMode.Learn.{tune, Landed, learn_post_throw}
use open_trickler_rp2040_con.ChargeMode.Charge.{
  is_rst, Step, running, exited, finished, Loop, charge_loop,
}
use open_trickler_rp2040_con.ChargeMode.Charge.Safety.{
  All, Halted, NoForward, charge_loop-NoForward,
}
use open_trickler_rp2040_con.ChargeMode.Complete.{
  plan_of, loop_of, before_charge, close_and_precharge, after_charge, end_of_charge, charge_with,
  charge_mode_wait_for_complete,
}
use open_trickler_rp2040_con.ChargeMode.Settle.{end_top_up}
use open_trickler_rp2040_con.ChargeMode.Removal.{
  measure_lag, learn_lag, show_result, judge_throw, log_throw, judge_and_log, RemovalScript,
  charge_mode_wait_for_cup_removal,
}
use open_trickler_rp2040_con.ChargeMode.Removal.Rules.{Kept, Closed, removal-Ends}
use open_trickler_rp2040_con.ChargeMode.Zero.{
  Zeroing, press, at_zero, enqueue_reading, returned, zero_pass, return_pass, end_wait,
  charge_mode_wait_for_zero, charge_mode_wait_for_cup_return,
}
use open_trickler_rp2040_con.ChargeMode.Menu.{Visit, run_state}

module _ {F : Type 0} ⦃fl : Floats F⦄ where
  open fl use {D}

  abbrev pub StillAfter : Commands F → Type 0
  StillAfter cs = (coarse_speed cs ≡ lit 0 0) × (fine_speed cs ≡ lit 0 0)

  -- Both motors were last told to stand still.
  abbrev pub Still : Machine F D → Type 0
  Still m = StillAfter m.commands

  end_top_up-Still :
      (s : Spell F) (v : F) (m : Machine F D)
      → Still m
      → Still (end_top_up s (record m { commands = motor_set_speed fine v m.commands }))
  unfolding end_top_up motor_set_speed
  end_top_up-Still s v m h = ground (arith, h)

  measure_lag-Still : (x : F) (m : Machine F D) → Still m → Still (measure_lag x m)
  unfolding measure_lag learn_lag
  measure_lag-Still x m h = ground (arith, h)

  learn_post_throw-commands :
      (i : ℕ) (x : Landed F) (m : Machine F D) → (learn_post_throw i x m).commands ≡ m.commands
  unfolding learn_post_throw tune
  learn_post_throw-commands i x m = ground arith

  show_result-Still : (r : ThrowResult) (m : Machine F D) → Still m → Still (show_result r m)
  unfolding show_result
  show_result-Still pass m h = h
  show_result-Still under m h = h
  show_result-Still over m h = h

  judge_and_log-Still :
      (now : ℕ) (bracket current : F) (m : Machine F D)
      → Still m
      → Still (judge_and_log now bracket current m)
  unfolding judge_and_log log_throw
  judge_and_log-Still now bracket current m h =
      let result = judge_throw bracket (m.target_charge_weight - current) in
      let shown = show_result result m in
      let kept = show_result-Still result m h in
      let idx = m.profile_data.current_profile_idx % 256 in
      ground (arith, kept, learn_post_throw-commands idx _ _)

  kept : Kept Still Still
  unfolding end_top_up
  kept = record { leaving = λ m h. h; topping = end_top_up-Still; measuring = measure_lag-Still }

  closed : Closed Still Still Still
  closed = record { leaving = λ m h. h; returning = λ m h. h }

  removal-Still :
      (s : RemovalScript F) (m : Machine F D)
      → Still m
      → Ends Still (λ _. Still) (charge_mode_wait_for_cup_removal s m)
  removal-Still s m h =
      let bracket = charge_mode_get_active_bracket m.settings in
      removal-Ends Still Still Still Still kept closed s m (judge_and_log-Still s.log_tick bracket)
        h

  after_charge-Still :
      (start now : ℕ) (l : Loop F) (m : Machine F D) → Halted l → Still (after_charge start now l m)
  unfolding after_charge close_and_precharge motor_set_speed
  after_charge-Still start now l m h = ground (arith, h)

  end_of_charge-Still :
      (P : Loop F → Type 0) (s : Spell F) (x : Step (Loop F)) (m : Machine F D)
      → All P Halted x
      → Ends Still (λ _. Still) (end_of_charge s x m)
  unfolding end_of_charge
  end_of_charge-Still P s (running l) m h = tt
  end_of_charge-Still P s (exited l) m h = h
  end_of_charge-Still P s (finished l) m h = after_charge-Still s.start s.finish l m h

  started : (m : Machine F D) (start began : ℕ) → (loop_of m start began).should_coarse_move ≡ true
  unfolding loop_of
  started m start began = refl

  complete-Still :
      (s : Spell F) (m : Machine F D) → Ends Still (λ _. Still) (charge_mode_wait_for_complete s m)
  unfolding charge_mode_wait_for_complete charge_with
  complete-Still s m =
      with_profile-Ends Still (λ _. Still) (charge_with s) (profile_get_selected m.profile_data) m
        (λ p.
          let plan = plan_of m p s.start in
          let ready = before_charge m in
          let l = loop_of ready s.start s.began in
          end_of_charge-Still (NoForward plan l) s (charge_loop plan s.passes l).0 ready
            (charge_loop-NoForward plan s.passes l (inl (started ready s.start s.began))))

  press-Still : (b : Button) (cs : Commands F) → StillAfter cs → StillAfter (press b cs)
  unfolding press
  press-Still no_event cs h = h
  press-Still rst_pressed cs h = h
  press-Still encoder_pressed cs h = h
  press-Still rotated cs h = h

  zero_pass-Still :
      (c : ChargeData F) (p : Pass F) (z : Zeroing F)
      → StillAfter z.commands
      → Around (λ z'. StillAfter z'.commands) (λ r. StillAfter r.1) (zero_pass c p z)
  unfolding zero_pass
  zero_pass-Still c p z h =
      let pressed = press-Still p.button z.commands h in
      let I : Zeroing F → Type 0 = λ z'. StillAfter z'.commands in
      let Q : Bool × Commands F → Type 0 = λ r. StillAfter r.1 in
      if-holds (Around I Q) (is_rst p.button) h
        (if-holds (Around I Q) (at_zero c (enqueue_reading p.measurement z.ring)) pressed pressed)

  return_reading-Still :
      (cs : Commands F) (o : Option F)
      → StillAfter cs
      → Around StillAfter (λ r. StillAfter r.1) (returned cs o)
  unfolding returned
  return_reading-Still cs none h = h
  return_reading-Still cs (some x) h =
      if-holds (Around StillAfter (λ r. StillAfter r.1)) (le (lit 0 0) x) h h

  return_pass-Still :
      (p : Pass F) (cs : Commands F)
      → StillAfter cs
      → Around StillAfter (λ r. StillAfter r.1) (return_pass p cs)
  unfolding return_pass
  return_pass-Still p cs h =
      if-holds (Around StillAfter (λ r. StillAfter r.1)) (is_rst p.button) h
        (return_reading-Still (press p.button cs) p.measurement (press-Still p.button cs h))

  end_wait-Still :
      (next : Machine F D) (o : Option (Bool × Commands F)) (m : Machine F D)
      → Result (λ r. StillAfter r.1) o
      → Ends Still (λ _. Still) (end_wait next o m)
  unfolding end_wait
  end_wait-Still next none m h = tt
  end_wait-Still next (some (false, cs)) m h = h
  end_wait-Still next (some (true, cs)) m h = h

  zero-Still :
      (s : Spell F) (m : Machine F D)
      → Still m
      → Ends Still (λ _. Still) (charge_mode_wait_for_zero s m)
  unfolding charge_mode_wait_for_zero
  zero-Still s m h =
      let ready = tell (led not_ready) m in
      end_wait-Still (with_state wait_for_complete ready) _ ready (
        poll-Result (λ z. StillAfter z.commands) (λ r. StillAfter r.1) (zero_pass m.settings)
          (zero_pass-Still m.settings) s.passes _ h)

  return-Still :
      (s : Spell F) (m : Machine F D)
      → Still m
      → Ends Still (λ _. Still) (charge_mode_wait_for_cup_return s m)
  unfolding charge_mode_wait_for_cup_return
  return-Still s m h =
      let ready = tell (led not_ready) m in
      end_wait-Still (with_state wait_for_zero ready) _ ready
        (poll-Result StillAfter (λ r. StillAfter r.1) return_pass return_pass-Still s.passes _ h)

  pub run_state-Still :
      (st : ChargeState) (v : Visit F) (m : Machine F D)
      → Still m
      → Ends Still (λ _. Still) (run_state st v m)
  unfolding run_state
  run_state-Still exit v m h = h
  run_state-Still wait_for_zero v m h = zero-Still v.spell m h
  run_state-Still wait_for_complete v m h = complete-Still v.spell m
  run_state-Still wait_for_cup_removal v m h = removal-Still v.removal m h
  run_state-Still wait_for_cup_return v m h = return-Still v.spell m h
