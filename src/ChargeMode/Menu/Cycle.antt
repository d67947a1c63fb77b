-- ===== src/ChargeMode/Menu/Cycle.antt =====
-- The order of the charge's states, and what holds at every state that a menu's session reaches.
use mathlib.Core.Path.{subst}
use open_trickler_rp2040_con.Prelude.{◌≡◌, refl, Bool, true, false, Option, none, some}
use open_trickler_rp2040_con.Float.{Floats}
use open_trickler_rp2040_con.ChargeMode.State.{
  ChargeState, exit, wait_for_zero, wait_for_complete, wait_for_cup_removal, wait_for_cup_return,
}
use open_trickler_rp2040_con.ChargeMode.Motors.{Commands, led, not_ready}
use open_trickler_rp2040_con.ChargeMode.World.{
  Machine, Spell, with_state, tell, profile_get_selected,
}
use open_trickler_rp2040_con.ChargeMode.Phase.{Outcome, waiting, left, done}
use open_trickler_rp2040_con.ChargeMode.Phase.Rules.{Ends, Result, with_profile-Ends}
use open_trickler_rp2040_con.ChargeMode.Charge.{Step, running, exited, finished, Loop, charge_loop}
use open_trickler_rp2040_con.ChargeMode.Complete.{
  plan_of, loop_of, before_charge, after_charge, end_of_charge, charge_with,
  charge_mode_wait_for_complete,
}
use open_trickler_rp2040_con.ChargeMode.Removal.{RemovalScript, charge_mode_wait_for_cup_removal}
use open_trickler_rp2040_con.ChargeMode.Removal.Rules.{Kept, Closed, removal-Ends}
use open_trickler_rp2040_con.ChargeMode.Zero.{
  end_wait, charge_mode_wait_for_zero, charge_mode_wait_for_cup_return,
}
use open_trickler_rp2040_con.ChargeMode.Menu.{Visit, run_state}
use open_trickler_rp2040_con.ChargeMode.Menu.Motion.{Still, run_state-Still}

-- The state behind each, where the button and the timeouts do not end the charge.
abbrev pub next_state : ChargeState → ChargeState
next_state exit = exit
next_state wait_for_zero = wait_for_complete
next_state wait_for_complete = wait_for_cup_removal
next_state wait_for_cup_removal = wait_for_cup_return
next_state wait_for_cup_return = wait_for_zero

module _ {F : Type 0} ⦃fl : Floats F⦄ where
  open fl use {D}

  abbrev pub IsIn : ChargeState → Machine F D → Type 0
  IsIn st m = m.state ≡ st

  -- Where a phase ends, whether the menu goes on behind it or the phase has left the charge mode.
  abbrev pub ended_at : Outcome (Machine F D) Unit → Option (Machine F D)
  ended_at waiting = none
  ended_at (left m) = some m
  ended_at (done u m) = some m

  ended-holds :
      (P : Machine F D → Type 0) (x : Outcome (Machine F D) Unit)
      → Ends P (λ _. P) x
      → Result P (ended_at x)
  ended-holds P waiting h = tt
  ended-holds P (left m) h = h
  ended-holds P (done u m) h = h

  -- A machine, and one that phases lead it to, each the phase of the state it is in, however it ends.
  pub data Reaches : Machine F D → Machine F D → Type 0 where
    here : {m : Machine F D} → Reaches m m
    visit :
        {m m' m'' : Machine F D} (v : Visit F)
        → ended_at (run_state m.state v m) ≡ some m'
        → Reaches m' m''
        → Reaches m m''

  end_wait-IsIn :
      (st : ChargeState) (next : Machine F D) (o : Option (Bool × Commands F)) (m : Machine F D)
      → next.state ≡ st
      → Ends (IsIn exit) (λ _. IsIn st) (end_wait next o m)
  unfolding end_wait
  end_wait-IsIn st next none m h = tt
  end_wait-IsIn st next (some (false, cs)) m h = refl
  end_wait-IsIn st next (some (true, cs)) m h = h

  zero-IsIn :
      (s : Spell F) (m : Machine F D)
      → Ends (IsIn exit) (λ _. IsIn wait_for_complete) (charge_mode_wait_for_zero s m)
  unfolding charge_mode_wait_for_zero
  zero-IsIn s m =
      let ready = tell (led not_ready) m in
      end_wait-IsIn wait_for_complete (with_state wait_for_complete ready) _ ready refl

  return-IsIn :
      (s : Spell F) (m : Machine F D)
      → Ends (IsIn exit) (λ _. IsIn wait_for_zero) (charge_mode_wait_for_cup_return s m)
  unfolding charge_mode_wait_for_cup_return
  return-IsIn s m =
      let ready = tell (led not_ready) m in
      end_wait-IsIn wait_for_zero (with_state wait_for_zero ready) _ ready refl

  end_of_charge-IsIn :
      (s : Spell F) (x : Step (Loop F)) (m : Machine F D)
      → Ends (IsIn exit) (λ _. IsIn wait_for_cup_removal) (end_of_charge s x m)
  unfolding end_of_charge after_charge
  end_of_charge-IsIn s (running l) m = tt
  end_of_charge-IsIn s (exited l) m = refl
  end_of_charge-IsIn s (finished l) m = refl

  complete-IsIn :
      (s : Spell F) (m : Machine F D)
      → Ends (IsIn exit) (λ _. IsIn wait_for_cup_removal) (charge_mode_wait_for_complete s m)
  unfolding charge_mode_wait_for_complete charge_with
  complete-IsIn s m =
      with_profile-Ends (IsIn exit) (λ _. IsIn wait_for_cup_removal) (charge_with s)
        (profile_get_selected m.profile_data) m
        (λ p.
          let ready = before_charge m in
          end_of_charge-IsIn s
            (charge_loop (plan_of m p s.start) s.passes (loop_of ready s.start s.began)).0 ready)

  removal-IsIn :
      (s : RemovalScript F) (m : Machine F D)
      → Ends (IsIn exit) (λ _. IsIn wait_for_cup_return) (charge_mode_wait_for_cup_removal s m)
  removal-IsIn s m =
      let T : Machine F D → Type 0 = λ _. Unit in
      let kept : Kept T (IsIn exit) = record {
        leaving = λ _ _. refl;
        topping = λ _ _ _ _. tt;
        measuring = λ _ _ _. tt;
      } in
      let closed : Closed T (IsIn exit) (IsIn wait_for_cup_return) = record {
        leaving = λ _ _. refl;
        returning = λ _ _. refl;
      } in
      removal-Ends T T (IsIn exit) (IsIn wait_for_cup_return) kept closed s m (λ _ _ _. tt) tt

  -- A phase that ends in the menu's loop leads to the next state of the cycle (zero, charge, removal and
  -- return of the cup, zero), or leaves the machine in the exit state.
  pub run_state-IsIn :
      (st : ChargeState) (v : Visit F) (m : Machine F D)
      → m.state ≡ st
      → Ends (IsIn exit) (λ _. IsIn (next_state st)) (run_state st v m)
  unfolding run_state
  run_state-IsIn exit v m h = h
  run_state-IsIn wait_for_zero v m h = zero-IsIn v.spell m
  run_state-IsIn wait_for_complete v m h = complete-IsIn v.spell m
  run_state-IsIn wait_for_cup_removal v m h = removal-IsIn v.removal m
  run_state-IsIn wait_for_cup_return v m h = return-IsIn v.spell m

  -- From a machine whose motors were told to stand still, every machine at the end of a phase has told both
  -- motors to stand still, after any number of phases, each ended as it should, by the button or by a
  -- timeout.
  pub Reaches-Still : {m m' : Machine F D} → Reaches m m' → Still m → Still m'
  Reaches-Still here h = h
  Reaches-Still {m} (visit {m' = m1} v e r) h =
      let ended = ended-holds Still (run_state m.state v m) (run_state-Still m.state v m h) in
      Reaches-Still r (subst (Result Still) e ended)
