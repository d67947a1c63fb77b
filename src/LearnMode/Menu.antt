-- ===== src/LearnMode/Menu.antt =====
-- learn_mode_menu: the whole run, from the first zero to switching the motors off.
pub mod Motion
use open_trickler_rp2040_con.Prelude.{
  ℕ, Bool, true, false, not, if◌then◌else◌, Option, none, some, List, [], ◌∷◌, replicate,
}
use open_trickler_rp2040_con.Float.{Floats, lit}
use open_trickler_rp2040_con.ChargeMode.State.{exit}
use open_trickler_rp2040_con.ChargeMode.Motors.{
  coarse, fine, Colour, not_ready, normal_charge, over_charge, default_colour, led, delay,
}
use open_trickler_rp2040_con.ChargeMode.World.{Machine, with_state, tell, drive_motor, move_gate}
use open_trickler_rp2040_con.ChargeMode.Phase.{Outcome, waiting, left, done, pure, modify, ◌>>=◌}
use open_trickler_rp2040_con.ChargeMode.Menu.{enable_motors}
use open_trickler_rp2040_con.CleanupMode.{
  Event, rst_pressed, rotate_cw, rotate_ccw, encoder_pressed, override_from_rest, other_event,
}
use open_trickler_rp2040_con.LearnMode.State.{
  LearnState, Learner, Learning, with_learn_state, with_machine, no_throw, throws_per_phase,
}
use open_trickler_rp2040_con.LearnMode.Cup.{ZeroScript, CupScript, zero_scale, empty_cup_and_zero}
use open_trickler_rp2040_con.LearnMode.Ladder.{TubeScript, learn_coarse, learn_fine}
use open_trickler_rp2040_con.LearnMode.Proposal.{fit_profile, learn_mode_apply_to_profile}
use open_trickler_rp2040_con.LearnMode.Confirm.{ConfirmScript, confirm_rounds, max_confirm_rounds}

-- What the world answers to a run; `keys` are the events behind it.
pub record RunScript (F : Type 0) : Type 0 where
  pub zero : ZeroScript F
  pub coarse : TubeScript F
  pub fine : TubeScript F
  pub cup : CupScript F
  pub rounds : List (List (ConfirmScript F))
  pub keys : List Event

-- The loop that waits for a key: whether the knob saved; `none` while it waits. After an error either
-- key leaves and nothing is saved.
unfoldable pub wait_for_key : Bool → List Event → Option Bool
wait_for_key ok [] = none
wait_for_key ok (encoder_pressed ∷ es) = some ok
wait_for_key ok (rst_pressed ∷ es) = some false
wait_for_key ok (override_from_rest ∷ es) = some false
wait_for_key ok (rotate_cw ∷ es) = wait_for_key ok es
wait_for_key ok (rotate_ccw ∷ es) = wait_for_key ok es
wait_for_key ok (other_event ∷ es) = wait_for_key ok es

module _ {F : Type 0} ⦃fl : Floats F⦄ where
  open fl use {D}

  -- The run's state is reset, and the motors go on.
  unfoldable pub start_run : Learner F D → Learner F D
  unfolding enable_motors
  start_run l = record l {
    state = LearnState.wait_for_zero;
    throw_idx = 0;
    current_speed = lit 0 0;
    result_valid = false;
    applied_to_profile = false;
    cup_load_gr = lit 0 0;
    max_settled_coarse = lit 0 0;
    max_settled_fine = lit 0 0;
    coarse_throws = replicate throws_per_phase no_throw;
    fine_throws = replicate throws_per_phase no_throw;
    machine = enable_motors true (tell (led not_ready) l.machine);
  }

  abbrev pub fit_and_apply : Learner F D → Learner F D
  fit_and_apply l =
      let fitted = fit_profile (with_learn_state LearnState.fit l) in
      with_machine (tell (delay 800)) (learn_mode_apply_to_profile fitted).0

  -- Up to the confirmation; `left` is `ok` turning false.
  unfoldable pub characterise : RunScript F → Learning F D Unit
  unfolding zero_scale learn_coarse learn_fine fit_profile learn_mode_apply_to_profile
      empty_cup_and_zero
  characterise s l =
      let run : Learning F D Unit = do
        _ ← zero_scale s.zero
        _ ← learn_coarse s.coarse
        _ ← learn_fine s.fine
        _ ← modify fit_and_apply
        _ ← modify (λ l. record l { state = LearnState.confirm; throw_idx = 0 })
        empty_cup_and_zero s.cup
      in run l

  abbrev pub suppress : Bool → Learner F D → Learner F D
  suppress on l = with_machine (λ m. record m { learn_tuning_suppressed = on }) l

  -- The counters and the tuner before the rounds, whether they run or not.
  abbrev pub before_rounds : Learner F D → Learner F D
  before_rounds l =
      suppress true
        (record l { result = record l.result { confirm_rounds = 0; confirm_met = false } })

  -- Behind the rounds: the tuner is on again and both motors stop.
  unfoldable pub after_rounds : Learner F D → Learner F D
  after_rounds l =
      with_machine (λ m. drive_motor fine (lit 0 0) (drive_motor coarse (lit 0 0) m))
        (suppress false l)

  -- Behind the keys: the lamp, the motors and the gate.
  unfoldable pub close_run : Learner F D → Learner F D
  unfolding enable_motors
  close_run l =
      with_machine
        (λ m.
          with_state exit
            (move_gate (lit 10 1) true (enable_motors false (tell (led default_colour) m))))
        l

  -- Behind the keys' loop; with whether the knob saved.
  unfoldable pub end_keys : Option Bool → Learner F D → Outcome (Learner F D) Bool
  unfolding close_run
  end_keys none l = waiting
  end_keys (some saved) l =
      done saved (close_run (if saved then with_machine (tell (delay 600)) l else l))

  -- The last part, once it is known whether the run was good.
  unfoldable pub finish_run : Bool → List Event → Learner F D → Outcome (Learner F D) Bool
  unfolding after_rounds end_keys wait_for_key
  finish_run ok keys l =
      let stopped = after_rounds l in
      end_keys (wait_for_key ok keys) (
        if ok
        then with_machine (tell (led normal_charge)) (with_learn_state LearnState.done stopped)
        else with_machine (tell (led over_charge)) stopped)

  abbrev pub end_rounds : List Event → Outcome (Learner F D) Unit → Outcome (Learner F D) Bool
  end_rounds keys waiting = waiting
  end_rounds keys (left l) = finish_run false keys l
  end_rounds keys (done u l) = finish_run true keys l

  abbrev pub end_characterise :
      RunScript F → Outcome (Learner F D) Unit → Outcome (Learner F D) Bool
  end_characterise s waiting = waiting
  end_characterise s (left l) = finish_run false s.keys (before_rounds l)
  end_characterise s (done u l) =
      end_rounds s.keys (confirm_rounds max_confirm_rounds s.rounds (before_rounds l))

  unfoldable pub learn_mode_menu : RunScript F → Learning F D Bool
  unfolding start_run characterise confirm_rounds finish_run
  learn_mode_menu s l = end_characterise s (characterise s (start_run l))
