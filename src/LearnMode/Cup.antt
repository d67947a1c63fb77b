-- ===== src/LearnMode/Cup.antt =====
-- The cup: wait_for_stable and auto_zero on the mode's state, and empty_cup_and_zero.
pub mod Motion
use open_trickler_rp2040_con.Prelude.{
  Bool, true, false, if◌then◌else◌, Option, none, some, List, [], ◌∷◌, ◌++◌,
}
use open_trickler_rp2040_con.Float.{Floats, lit, neg, ◌+◌, lt}
use open_trickler_rp2040_con.ChargeMode.State.{Pass}
use open_trickler_rp2040_con.ChargeMode.Motors.{
  Command, Commands, led, not_ready, force_zero, scale_tare, delay,
}
use open_trickler_rp2040_con.ChargeMode.World.{Machine, Spell, tell}
use open_trickler_rp2040_con.ChargeMode.Phase.{
  Poll, again, out, poll, Outcome, waiting, left, done, pure, modify, ◌>>=◌,
}
use open_trickler_rp2040_con.ChargeMode.Charge.{is_rst}
use open_trickler_rp2040_con.LearnMode.{
  End, ready, aborted, failed, ZeroCommand, rezero, tare, wait_for_stable, auto_zero,
}
use open_trickler_rp2040_con.LearnMode.State.{
  LearnState, Learner, Learning, with_learn_state, with_machine, end_wait,
}

-- The two waits of auto_zero.
pub record ZeroScript (F : Type 0) : Type 0 where
  pub settling : Spell F
  pub zeroing : Spell F

-- The passes until the cup is off, the wait for the level without it, the passes until it is back, the
-- wait behind that, and the zeroing.
pub record CupScript (F : Type 0) : Type 0 where
  pub off : List (Pass F)
  pub away : Spell F
  pub back : List (Pass F)
  pub settling : Spell F
  pub zero : ZeroScript F

abbrev pub command_of : {F : Type 0} → ZeroCommand → Command F
command_of rezero = force_zero
command_of tare = scale_tare

-- What was sent, both lists with the newest first.
abbrev pub tell_all : {F : Type 0} → List ZeroCommand → Commands F → Commands F
tell_all [] cs = cs
tell_all (z ∷ zs) cs = command_of z ∷ tell_all zs cs

module _ {F D : Type 0} where
  -- How a zeroing ended, with what it sent.
  unfoldable pub end_zero : Option (End × List ZeroCommand) → Learning F D Unit
  end_zero none l = waiting
  end_zero (some (e, sent)) l =
      let told = with_machine (λ m. record m { commands = tell_all sent m.commands }) l in
      elim e [
        | ready ↦ Outcome.done tt told
        | aborted ↦ left (with_learn_state LearnState.aborted told)
        | failed ↦ left (with_learn_state LearnState.error told)
      ]

module _ {F : Type 0} ⦃fl : Floats F⦄ where
  open fl use {D}

  unfoldable pub settle : Spell F → Learning F D F
  unfolding wait_for_stable end_wait
  settle s l = end_wait (wait_for_stable l.machine.settings s) l

  unfoldable pub zero_scale : ZeroScript F → Learning F D Unit
  unfolding auto_zero end_zero
  zero_scale s l = end_zero (auto_zero l.machine.settings l.has_force_zero s.settling s.zeroing) l

  -- A pass that waits for a reading that passes the test; the button aborts.
  unfoldable pub watch_pass : (F → Bool) → Pass F → Unit {0} → Poll Unit (End × Unit)
  watch_pass seen p u = if is_rst p.button then out (aborted, tt) else elim p.measurement [
    | none ↦ again tt
    | some x ↦ if seen x then out (ready, tt) else again tt
  ]

  unfoldable pub watch : (F → Bool) → List (Pass F) → Learning F D Unit
  unfolding watch_pass poll end_wait
  watch seen ps l = end_wait (poll (watch_pass seen) ps tt) l

  abbrev pub cup_is_off : F → Bool
  cup_is_off x = lt x (neg (lit 50 1))

  abbrev pub cup_is_back : F → F → Bool
  cup_is_back off_level x = lt (off_level + lit 20 1) x

  unfoldable pub empty_cup_and_zero : CupScript F → Learning F D Unit
  unfolding watch settle zero_scale
  empty_cup_and_zero s l =
      let wait : Learning F D Unit = do
        _ ←
            modify
              (λ l. with_machine (tell (led not_ready)) (with_learn_state LearnState.empty_cup l))
        _ ← watch cup_is_off s.off
        off_level ← settle s.away
        _ ← watch (cup_is_back off_level) s.back
        _ ← settle s.settling
        _ ← modify (with_machine (λ m. tell (delay 600) (tell scale_tare m)))
        _ ← zero_scale s.zero
        modify (λ l'. record l' { cup_load_gr = lit 0 0; state = l.state })
      in wait l

  unfoldable pub ensure_cup_room : CupScript F → F → Learning F D Unit
  unfolding empty_cup_and_zero
  ensure_cup_room s expected_gr l =
      if lt l.machine.learn_config.cup_capacity_gr (l.cup_load_gr + expected_gr)
      then empty_cup_and_zero s l
      else Outcome.done tt l
