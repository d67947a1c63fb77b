-- ===== src/LearnMode/Runs.antt =====
-- Throws and a run of the learn mode over the fixed-point floats.
use open_trickler_rp2040_con.Prelude.{
  ℕ, ◌≡◌, refl, Bool, false, Option, none, some, [], ◌∷◌, replicate,
}
use open_trickler_rp2040_con.Prelude.Int.{ℤ}
use open_trickler_rp2040_con.Float.{fixed, fixed_arith, lit, neg}
use open_trickler_rp2040_con.ChargeMode.State.{no_event, rst_pressed, Button, Pass}
use open_trickler_rp2040_con.ChargeMode.World.{Spell}
use open_trickler_rp2040_con.ChargeMode.Phase.{Outcome, waiting, left, done}
use open_trickler_rp2040_con.ChargeMode.Phase.Rules.{Ends, is_waiting}
use open_trickler_rp2040_con.CleanupMode.{Event}
use open_trickler_rp2040_con.LearnMode.Cup.{ZeroScript, CupScript, zero_scale}
use open_trickler_rp2040_con.LearnMode.Cup.Motion.{LearnerStill}
use open_trickler_rp2040_con.LearnMode.Throw.{
  coarse_tube, RunPass, ThrowScript, run_tube, throw_for_time,
}
use open_trickler_rp2040_con.LearnMode.Throw.Motion.{throw_for_time-Still}
use open_trickler_rp2040_con.LearnMode.Throw.Ends.{run_tube-Stopped}
use open_trickler_rp2040_con.LearnMode.Throw.Bounds.{Good, throw_for_time-Good}
use open_trickler_rp2040_con.LearnMode.Ladder.{keep_throw}
use open_trickler_rp2040_con.LearnMode.Menu.{RunScript, characterise, learn_mode_menu}
use open_trickler_rp2040_con.LearnMode.Menu.Motion.{AtRest, learn_mode_menu-AtRest}
use open_trickler_rp2040_con.LearnMode.State.{LearnThrow, Learner}
use open_trickler_rp2040_con.LearnMode.Examples.{learner, irreflexive}

abbrev reading : ℕ → ℤ → Pass ℤ
reading tick x = record {
  button = no_event;
  measurement = some x;
  head = tick;
  now = tick;
  after = tick;
}

-- A scale that holds still at a weight for ten readings.
abbrev still_at : ℤ → ℕ → Spell ℤ
still_at x n = record {
  start = 2200;
  began = 2200;
  latest = lit 0 0;
  memory = replicate n (lit 0 0);
  passes = replicate 10 (reading 3000 x);
  finish = 3000;
}

abbrev zero_script : ZeroScript ℤ
zero_script = record { settling = still_at (lit 80 1) 8; zeroing = still_at (lit 0 0) 6 }

abbrev cup_script : CupScript ℤ
cup_script = record {
  off = reading 2500 (neg (lit 900 1)) ∷ [];
  away = still_at (neg (lit 900 1)) 8;
  back = reading 2900 (lit 0 0) ∷ [];
  settling = still_at (lit 0 0) 8;
  zero = zero_script;
}

abbrev run_pass_at : Button → ℕ → RunPass ℤ
run_pass_at b tick = record {
  pass = record { button = b; measurement = some (lit 5 1); head = tick; now = tick; after = tick };
  moved = tick;
}

abbrev throw_script : ThrowScript ℤ
throw_script = record {
  cup = cup_script;
  base = lit 0 0;
  start = 100;
  passes = run_pass_at no_event 400 ∷ run_pass_at no_event 2100 ∷ [];
  stop = 2101;
  settling = still_at (lit 80 1) 8;
  zero = zero_script;
}

abbrev settled_of : Outcome (Learner ℤ ℤ) (LearnThrow ℤ) → Option ℤ
settled_of waiting = none
settled_of (left l) = none
settled_of (done t l) = some t.settled_weight

-- The throw runs to its end, and eight grains are in the cup.
lands :
    settled_of (
      throw_for_time coarse_tube
        (keep_throw coarse_tube 0)
        (lit 10 1)
        (lit 20 1)
        (lit 80 1)
        throw_script
        learner)
    ≡ some (lit 80 1)
unfolding throw_for_time fixed_arith
lands = refl

throw_for_time-Still_example :
    Ends LearnerStill
      (λ _. LearnerStill)
      (throw_for_time coarse_tube
        (keep_throw coarse_tube 0)
        (lit 10 1)
        (lit 20 1)
        (lit 80 1)
        throw_script
        learner)
throw_for_time-Still_example =
    throw_for_time-Still coarse_tube (keep_throw coarse_tube 0) (λ t l h. h) (lit 10 1) (lit 20 1)
      (lit 80 1) throw_script learner (refl, refl)

throw_for_time-Good_example :
    Ends
      (λ _. Unit)
      (λ t _. Good t)
      (throw_for_time coarse_tube
        (keep_throw coarse_tube 0)
        (lit 10 1)
        (lit 20 1)
        (lit 80 1)
        throw_script
        learner)
unfolding fixed_arith
throw_for_time-Good_example =
    throw_for_time-Good coarse_tube (keep_throw coarse_tube 0) irreflexive refl (lit 10 1)
      (lit 20 1) (lit 80 1) throw_script learner

run_tube-Stopped_example :
    (is_waiting (run_tube coarse_tube (lit 10 1) (lit 20 1) (lit 0 0) throw_script learner) ≡ false)
    × Ends LearnerStill
        (λ _. LearnerStill)
        (run_tube coarse_tube (lit 10 1) (lit 20 1) (lit 0 0) throw_script learner)
unfolding fixed_arith
run_tube-Stopped_example =
    run_tube-Stopped coarse_tube (lit 10 1) (lit 20 1) (lit 0 0) (run_pass_at no_event 400 ∷ []) []
      (run_pass_at no_event 2100) throw_script learner (refl, refl) refl refl

abbrev saved_of : Outcome (Learner ℤ ℤ) Bool → Option Bool
saved_of waiting = none
saved_of (left l) = none
saved_of (done b l) = some b

abbrev aborting : RunScript ℤ
aborting = record {
  zero = record zero_script {
    settling = record (still_at (lit 0 0) 8) {
      passes =
          record { button = rst_pressed; measurement = none; head = 200; now = 200; after = 500 }
          ∷ [];
    };
  };
  coarse = record { probe = throw_script; ladder = [] };
  fine = record { probe = throw_script; ladder = [] };
  cup = cup_script;
  rounds = [];
  keys = Event.rotate_cw ∷ Event.rst_pressed ∷ [];
}

learn_mode_menu-AtRest_example : Ends (λ _. ⊥) (λ _. AtRest) (learn_mode_menu aborting learner)
learn_mode_menu-AtRest_example = learn_mode_menu-AtRest aborting learner

aborts_unsaved : saved_of (learn_mode_menu aborting learner) ≡ some false
unfolding learn_mode_menu characterise zero_scale fixed_arith
aborts_unsaved = refl
