-- ===== src/LearnMode/Throw/Motion.antt =====
-- However a throw ends, both motors are still.
use open_trickler_rp2040_con.Prelude.{true, if-holds, if◌then◌else◌, arith}
use open_trickler_rp2040_con.Float.{Floats, lit, neg, ◌*◌, lt, fmaxf}
use open_trickler_rp2040_con.ChargeMode.Motors.{motor_set_speed}
use open_trickler_rp2040_con.ChargeMode.World.{drive_motor, move_gate}
use open_trickler_rp2040_con.ChargeMode.Phase.Rules.{Ends}
use open_trickler_rp2040_con.ChargeMode.Menu.Motion.{Still}
use open_trickler_rp2040_con.LearnMode.State.{LearnThrow, Learner, with_machine}
use open_trickler_rp2040_con.LearnMode.Cup.{ZeroScript}
use open_trickler_rp2040_con.LearnMode.Cup.Motion.{
  LearnerStill, EndsStill, end_wait-Still, settle-Still, zero_scale-Still, goes_on,
  ensure_cup_room-Still,
}
use open_trickler_rp2040_con.LearnMode.Throw.{
  Tube, coarse_tube, fine_tube, motor_of, ThrowScript, Run, max_settled, with_max_settled, run_loop,
  load_cup, judge_throw, measure, run_tube, throw_tube, throw_for_time,
}

module _ {F : Type 0} ⦃fl : Floats F⦄ where
  open fl use {D}

  -- `keep` writes a throw, and nothing that the motors are told.
  abbrev pub Keeps : (LearnThrow F → Learner F D → Learner F D) → Type 0
  Keeps keep = (t : LearnThrow F) (l : Learner F D) → LearnerStill l → LearnerStill (keep t l)

  stopped :
      (tube : Tube) (v : F) (l : Learner F D)
      → LearnerStill l
      → LearnerStill (
          with_machine
            (drive_motor (motor_of tube) (lit 0 0))
            (with_machine (drive_motor (motor_of tube) v) l))
  unfolding motor_set_speed
  stopped coarse_tube v l h = ground (arith, h)
  stopped fine_tube v l h = ground (arith, h)

  pub run_tube-Still :
      (tube : Tube) (speed run_s base : F) (s : ThrowScript F)
      → EndsStill (run_tube tube speed run_s base s)
  unfolding run_tube
  run_tube-Still tube speed run_s base s l h =
      end_wait-Still LearnerStill (run_loop base run_s s) _ (λ _. stopped tube speed l h)
        (stopped tube speed l h)

  heaviest-Still :
      (tube : Tube) (x : F) (l : Learner F D)
      → LearnerStill l
      → LearnerStill (if lt (max_settled tube l) x then with_max_settled tube x l else l)
  heaviest-Still coarse_tube x l h = if-holds LearnerStill (lt l.max_settled_coarse x) h h
  heaviest-Still fine_tube x l h = if-holds LearnerStill (lt l.max_settled_fine x) h h

  module _ (tube : Tube) (keep : LearnThrow F → Learner F D → Learner F D)
      (keeps : Keeps keep) where
    load_cup-Still :
        (t : LearnThrow F) (l : Learner F D)
        → LearnerStill l
        → LearnerStill (load_cup tube keep t l)
    unfolding load_cup
    load_cup-Still t l h = heaviest-Still tube t.settled_weight (keep t l) (keeps t l h)

    judge_throw-Still :
        (t : LearnThrow F) (s : ZeroScript F) → EndsStill (judge_throw tube keep t s)
    unfolding judge_throw
    judge_throw-Still t s l h =
        let loaded = load_cup-Still t l h in
        if-holds (Ends LearnerStill (λ _. LearnerStill)) (lt t.settled_weight (lit 5 2)) loaded
          (goes_on _ _ (zero_scale-Still s _ loaded) (λ _ l h. h))

    measure-Still :
        (speed base : F) (s : ThrowScript F) (r : Run F)
        → EndsStill (measure tube keep speed base s r)
    unfolding measure
    measure-Still speed base s r l h =
        goes_on _ _ (settle-Still s.settling l h) (λ settled. judge_throw-Still _ s.zero)

    throw_tube-Still :
        (speed run_s : F) (s : ThrowScript F) → EndsStill (throw_tube tube keep speed run_s s)
    unfolding throw_tube
    throw_tube-Still speed run_s s l h =
        let base = if lt s.base (neg (lit 10 1)) then lit 0 0 else s.base in
        let opened : LearnerStill (with_machine (move_gate (lit 0 0) true) l) =
          if-holds Still l.machine.gate_enable h h in
        goes_on _ _ (run_tube-Still tube speed run_s base s _ opened)
          (λ r. measure-Still speed base s r)

    -- However a throw ends (measured, aborted, a scale that is silent or does not settle, nothing that
    -- landed, a zeroing that fails), both motors are still behind it if they were before it.
    pub throw_for_time-Still :
        (speed run_s expected_gr : F) (s : ThrowScript F)
        → EndsStill (throw_for_time tube keep speed run_s expected_gr s)
    unfolding throw_for_time
    throw_for_time-Still speed run_s expected_gr s l h =
        goes_on _ _
          (ensure_cup_room-Still s.cup (fmaxf expected_gr (max_settled tube l) * lit 115 2) l h)
          (λ _. throw_tube-Still speed run_s s)
