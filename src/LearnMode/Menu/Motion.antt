-- ===== src/LearnMode/Menu/Motion.antt =====
-- However a run ends, it leaves both motors still, the charge mode idle and the tuner on.
use open_trickler_rp2040_con.Prelude.{
  ◌≡◌, refl, Bool, true, false, if-holds, if◌then◌else◌, Option, none, some, List, arith,
}
use open_trickler_rp2040_con.Float.{Floats}
use open_trickler_rp2040_con.ChargeMode.State.{exit}
use open_trickler_rp2040_con.ChargeMode.Motors.{
  normal_charge, over_charge, led, delay, motor_set_speed, motor_enable,
}
use open_trickler_rp2040_con.ChargeMode.World.{tell}
use open_trickler_rp2040_con.ChargeMode.Phase.{Outcome, waiting, left, done}
use open_trickler_rp2040_con.ChargeMode.Phase.Rules.{Ends}
use open_trickler_rp2040_con.ChargeMode.Menu.{enable_motors}
use open_trickler_rp2040_con.ChargeMode.Menu.Motion.{Still}
use open_trickler_rp2040_con.CleanupMode.{Event}
use open_trickler_rp2040_con.LearnMode.State.{LearnState, Learner, with_learn_state, with_machine}
use open_trickler_rp2040_con.LearnMode.Menu.{
  RunScript, wait_for_key, before_rounds, after_rounds, close_run, end_keys, finish_run, end_rounds,
  end_characterise, characterise, start_run, learn_mode_menu,
}
use open_trickler_rp2040_con.LearnMode.Confirm.{confirm_rounds, max_confirm_rounds}

module _ {F : Type 0} ⦃fl : Floats F⦄ where
  open fl use {D}

  -- Both motors were last told to stand still, the charge mode's state is the exit, and the tuner is on.
  abbrev pub AtRest : Learner F D → Type 0
  AtRest l =
      Still l.machine × (l.machine.state ≡ exit) × (l.machine.learn_tuning_suppressed ≡ false)

  close_run-AtRest :
      (l : Learner F D) → l.machine.learn_tuning_suppressed ≡ false → AtRest (close_run l)
  unfolding close_run enable_motors motor_enable motor_set_speed
  close_run-AtRest l h = ground (arith, h)

  abbrev TunerOn : Learner F D → Type 0
  TunerOn l = l.machine.learn_tuning_suppressed ≡ false

  end_keys-AtRest :
      (o : Option Bool) (l : Learner F D) → TunerOn l → Ends (λ _. ⊥) (λ _. AtRest) (end_keys o l)
  unfolding end_keys
  end_keys-AtRest none l h = tt
  end_keys-AtRest (some saved) l h =
      close_run-AtRest (if saved then with_machine (tell (delay 600)) l else l)
        (if-holds TunerOn saved h h)

  finish_run-AtRest :
      (ok : Bool) (keys : List Event) (l : Learner F D)
      → Ends (λ _. ⊥) (λ _. AtRest) (finish_run ok keys l)
  unfolding finish_run after_rounds
  finish_run-AtRest ok keys l =
      let stopped = after_rounds l in
      end_keys-AtRest (wait_for_key ok keys)
        (if ok
          then with_machine (tell (led normal_charge)) (with_learn_state LearnState.done stopped)
          else with_machine (tell (led over_charge)) stopped)
        (if-holds TunerOn ok refl refl)

  end_rounds-AtRest :
      (keys : List Event) (x : Outcome (Learner F D) Unit)
      → Ends (λ _. ⊥) (λ _. AtRest) (end_rounds keys x)
  end_rounds-AtRest keys waiting = tt
  end_rounds-AtRest keys (left l) = finish_run-AtRest false keys l
  end_rounds-AtRest keys (done u l) = finish_run-AtRest true keys l

  end_characterise-AtRest :
      (s : RunScript F) (x : Outcome (Learner F D) Unit)
      → Ends (λ _. ⊥) (λ _. AtRest) (end_characterise s x)
  end_characterise-AtRest s waiting = tt
  end_characterise-AtRest s (left l) = finish_run-AtRest false s.keys (before_rounds l)
  end_characterise-AtRest s (done u l) =
      end_rounds-AtRest s.keys (confirm_rounds max_confirm_rounds s.rounds (before_rounds l))

  -- Whatever happened in a run (a good end, an error, an abort in any of its phases), when it returns both
  -- motors were last told to stand still, the charge mode's state is the exit, and the tuner is on.
  pub learn_mode_menu-AtRest :
      (s : RunScript F) (l : Learner F D) → Ends (λ _. ⊥) (λ _. AtRest) (learn_mode_menu s l)
  unfolding learn_mode_menu
  learn_mode_menu-AtRest s l = end_characterise-AtRest s (characterise s (start_run l))
