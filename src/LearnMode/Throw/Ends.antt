-- ===== src/LearnMode/Throw/Ends.antt =====
-- The run of a throw ends.
use open_trickler_rp2040_con.Prelude.{
  ℕ, ◌≡◌, refl, ap, ◌∙◌, true, false, leb, Option, none, some, List, ◌∷◌, ◌++◌, arith,
}
use open_trickler_rp2040_con.Float.{Floats}
use open_trickler_rp2040_con.ChargeMode.Phase.{poll}
use open_trickler_rp2040_con.ChargeMode.Phase.Rules.{
  leaves, has_ended, is_waiting, poll-leaves, Ends,
}
use open_trickler_rp2040_con.LearnMode.{End, ready, aborted, failed}
use open_trickler_rp2040_con.LearnMode.State.{Learner, end_wait}
use open_trickler_rp2040_con.LearnMode.Cup.Motion.{LearnerStill}
use open_trickler_rp2040_con.LearnMode.Throw.{
  Tube, RunPass, ThrowScript, Run, run_pass, first_run, stop_target_of, run_loop, run_tube,
}
use open_trickler_rp2040_con.LearnMode.Throw.Motion.{run_tube-Still}

module _ {F : Type 0} ⦃fl : Floats F⦄ where
  open fl use {D}

  run_pass-leaves :
      (base : F) (start stop_target : ℕ) (p : RunPass F) (r : Run F)
      → leb stop_target p.pass.head ≡ true
      → leaves (run_pass base start stop_target p r) ≡ true
  unfolding run_pass
  run_pass-leaves base start stop_target p r late = ground (arith, late)

  end_wait-waiting :
      {A : Type 0} (o : Option (End × A)) (l : Learner F D)
      → has_ended o ≡ true
      → is_waiting (end_wait o l) ≡ false
  unfolding end_wait
  end_wait-waiting none l h = ground (arith, h)
  end_wait-waiting (some (ready, a)) l h = refl
  end_wait-waiting (some (aborted, a)) l h = refl
  end_wait-waiting (some (failed, a)) l h = refl

  -- A tube cannot run on: where a pass of its loop begins at the throw's stop tick or after it, the run
  -- has ended by that pass, whatever the scale read, and both motors are still if they were before it.
  pub run_tube-Stopped :
      (tube : Tube) (speed run_s base : F) (before after : List (RunPass F)) (p : RunPass F)
      (s : ThrowScript F) (l : Learner F D)
      → LearnerStill l
      → s.passes ≡ before ++ p ∷ after
      → leb (stop_target_of s.start run_s) p.pass.head ≡ true
      → (is_waiting (run_tube tube speed run_s base s l) ≡ false)
        × Ends LearnerStill (λ _. LearnerStill) (run_tube tube speed run_s base s l)
  unfolding run_tube run_loop
  run_tube-Stopped tube speed run_s base before after p s l h e late =
      let target = stop_target_of s.start run_s in
      let step = run_pass base s.start target in
      let first = first_run base s.start in
      let ended =
        poll-leaves step before after p first (λ r. run_pass-leaves base s.start target p r late) in
      (
        end_wait-waiting (poll step s.passes first) _
            (ap (λ ps. has_ended (poll step ps first)) e ∙ ended),
        run_tube-Still tube speed run_s base s l h,
      )
