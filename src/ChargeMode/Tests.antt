-- ===== src/ChargeMode/Tests.antt =====
-- A charge of 40 grains over the fixed-point floats, and the loops of its phases.
use open_trickler_rp2040_con.Prelude.{
  get_or, ℕ, ◌≡◌, ◌≤◌, refl, ◌⊎◌, inl, Bool, true, false, Option, none, some, List, [], ◌∷◌, ◌++◌,
  replicate, arith,
}
use open_trickler_rp2040_con.Prelude.Int.{ℤ, pos}
use open_trickler_rp2040_con.Float.{fixed, fixed_arith, lit, neg, of_nat, ◌*◌}
use open_trickler_rp2040_con.SessionStats.{pass}
use open_trickler_rp2040_con.Tuner.State.{tuner_init}
use open_trickler_rp2040_con.Tuner.Knob.{handoff_range}
use open_trickler_rp2040_con.Tuner.Limits.{Irreflexive, Within}
use open_trickler_rp2040_con.ChargeMode.State.{
  exit, wait_for_zero, wait_for_complete, no_event, rst_pressed, Pass, handoff_max_frac,
  handoff_for_target, charge_mode_get_active_bracket,
}
use open_trickler_rp2040_con.ChargeMode.Examples.{settings, profile, machine}
use open_trickler_rp2040_con.ChargeMode.Motors.{led, not_ready}
use open_trickler_rp2040_con.ChargeMode.World.{Machine, Spell, profile_get_selected}
use open_trickler_rp2040_con.ChargeMode.Phase.{Outcome, waiting, left, done}
use open_trickler_rp2040_con.ChargeMode.Phase.Rules.{Ends, is_waiting}
use open_trickler_rp2040_con.ChargeMode.Learn.{Landed, env_of, obs_of, learn_post_throw}
use open_trickler_rp2040_con.ChargeMode.Learn.Bounds.{
  Asymmetric, handoff_for_target-Within, Learned, learn_post_throw-Learned,
}
use open_trickler_rp2040_con.ChargeMode.Charge.{Plan, Loop, charge_loop}
use open_trickler_rp2040_con.ChargeMode.Charge.Stop.{
  verdict, first_stop, abandoned, stopped_at, charge_loop-first_stop, charge_loop-silent,
}
use open_trickler_rp2040_con.ChargeMode.Charge.Safety.{
  All, NoForward, Halted, charge_loop-NoForward,
}
use open_trickler_rp2040_con.ChargeMode.Complete.{plan_of, loop_of}
use open_trickler_rp2040_con.ChargeMode.Settle.{charge_mode_wait_for_settle, charge_mode_top_up}
use open_trickler_rp2040_con.ChargeMode.Settle.Ends.{
  Stopped, charge_mode_wait_for_settle-ends, charge_mode_top_up-Stopped,
}
use open_trickler_rp2040_con.ChargeMode.Request.{Readers, Config, c18, c20, Param}
use open_trickler_rp2040_con.ChargeMode.Request.Steps.{active_steps, configured, bracket-configured}
use open_trickler_rp2040_con.ChargeMode.Removal.{
  RemovalScript, measure_lag, charge_mode_wait_for_cup_removal,
}
use open_trickler_rp2040_con.ChargeMode.Removal.Logged.{
  Unlogged, Logged, charge_mode_wait_for_cup_removal-Logged, measure_lag-bounds,
}
use open_trickler_rp2040_con.ChargeMode.Menu.{Visit, run_state}
use open_trickler_rp2040_con.ChargeMode.Menu.Motion.{Still}
use open_trickler_rp2040_con.ChargeMode.Menu.Cycle.{
  IsIn, run_state-IsIn, ended_at, here, visit, Reaches-Still,
}

abbrev pass_at : ℕ → Option ℤ → Pass ℤ
pass_at t w = record { button = no_event; measurement = w; head = t; now = t; after = t }

-- 10 grains, then 36 (past the bulk's stop), then 39.95 (inside the bracket).
abbrev weights : List (Pass ℤ)
weights =
    pass_at 1100 (some (lit 10 0))
    ∷ pass_at 1200 (some (lit 36 0))
    ∷ pass_at 1300 none
    ∷ pass_at 1500 (some (lit 3995 2))
    ∷ []

abbrev plan : Plan ℤ
plan = plan_of machine profile 1000

abbrev loop : Loop ℤ
loop = loop_of machine 1000 1000

abbrev spell : List (Pass ℤ) → Spell ℤ
spell ps = record {
  start = 1000;
  began = 1000;
  latest = lit 3995 2;
  memory = replicate 10 (lit 0 0);
  passes = ps;
  finish = 9000;
}

irreflexive : Irreflexive fixed
unfolding fixed_arith
irreflexive x = ground arith

asymmetric : Asymmetric fixed
unfolding fixed_arith
asymmetric x y h = ground (arith, h)

stops_in_bracket : verdict (charge_loop plan weights loop).0 ≡ stopped_at (lit 3995 2)
unfolding charge_loop plan_of loop_of fixed_arith tuner_init
stops_in_bracket = refl

charge_loop-first_stop_example :
    verdict (charge_loop plan weights loop).0
    ≡ first_stop plan.fine_aim plan.fine_stop_threshold weights loop.last_valid_tick
charge_loop-first_stop_example = charge_loop-first_stop plan weights loop

charge_loop-silent_example :
    verdict (charge_loop plan ((pass_at 1500 none ∷ []) ++ pass_at 3000 none ∷ weights) loop).0
    ≡ abandoned
unfolding loop_of
charge_loop-silent_example =
    charge_loop-silent plan (pass_at 1500 none ∷ []) weights (pass_at 3000 none) loop refl refl refl

charge_loop-NoForward_example : All (NoForward plan loop) Halted (charge_loop plan weights loop).0
unfolding loop_of
charge_loop-NoForward_example = charge_loop-NoForward plan weights loop (inl refl)

abbrev quiet : List (Pass ℤ)
quiet = replicate 10 (pass_at 1100 (some (lit 0 0)))

abbrev is_done : Outcome (Machine ℤ ℤ) Unit → Bool
is_done waiting = false
is_done (left m) = false
is_done (done u m) = true

abbrev removal : RemovalScript ℤ
removal = record {
  settling = spell (pass_at 1500 (some (lit 3998 2)) ∷ pass_at 6500 none ∷ []);
  top_ups = [];
  log_tick = 9100;
  cup = record (spell (replicate 6 (pass_at 9200 (some (neg (lit 30 0)))))) {
    memory = replicate 5 (lit 0 0);
  };
}

-- The reading is inside the bracket when the time is up, and the cup is taken away.
removal_ends : is_done (charge_mode_wait_for_cup_removal removal machine) ≡ true
unfolding charge_mode_wait_for_cup_removal fixed_arith tuner_init
removal_ends = refl

abbrev zeroing : Visit ℤ
zeroing = record { spell = spell quiet; removal = removal }

run_state-IsIn_example :
    Ends (IsIn exit) (λ _. IsIn wait_for_complete) (run_state wait_for_zero zeroing machine)
run_state-IsIn_example = run_state-IsIn wait_for_zero zeroing machine refl

charge_mode_wait_for_settle-ends_example :
    is_waiting
      (charge_mode_wait_for_settle 5000 (spell (weights ++ pass_at 6000 none ∷ [])) machine)
    ≡ false
charge_mode_wait_for_settle-ends_example =
    charge_mode_wait_for_settle-ends 5000 weights [] (pass_at 6000 none)
      (spell (weights ++ pass_at 6000 none ∷ [])) machine refl refl

abbrev light : List (Pass ℤ)
light = pass_at 2500 (some (lit 398 1)) ∷ pass_at 16001 (some (lit 398 1)) ∷ []

charge_mode_top_up-Stopped_example : Stopped (charge_mode_top_up (lit 6 2) (spell light) machine)
unfolding profile_get_selected
charge_mode_top_up-Stopped_example =
    charge_mode_top_up-Stopped (lit 6 2) (pass_at 2500 (some (lit 398 1)) ∷ []) []
      (pass_at 16001 (some (lit 398 1))) (spell light) profile machine refl refl refl

charge_mode_wait_for_cup_removal-Logged_example :
    Ends
      (λ m'. Unlogged machine m' ⊎ Logged 9100 machine m')
      (λ _. Logged 9100 machine)
      (charge_mode_wait_for_cup_removal removal machine)
charge_mode_wait_for_cup_removal-Logged_example =
    charge_mode_wait_for_cup_removal-Logged removal machine

measure_lag-bounds_example :
    let lag = (measure_lag (lit 40 0) machine).settings.fine_lag_s in
    (lag ≡ lit 35 2) ⊎ (Within (lit 0 0) (lit 30 1) lag × (false ≡ false))
unfolding fixed_arith
measure_lag-bounds_example = measure_lag-bounds irreflexive refl (lit 40 0) machine

handoff_for_target-Within_example :
    Within (lit 0 0) (handoff_max_frac * lit 8 0) (handoff_for_target settings (lit 8 0))
unfolding fixed_arith
handoff_for_target-Within_example =
    handoff_for_target-Within irreflexive asymmetric settings (lit 8 0) refl

abbrev landed : Landed ℤ
landed = record {
  result = pass;
  bracket = lit 6 2;
  total_s = lit 8 0;
  coarse_stop_predicted = lit 35 0;
  error_gr = lit 1 2;
}

learn_post_throw-Learned_example : Learned (lit 6 2) machine (learn_post_throw 0 landed machine)
unfolding env_of obs_of handoff_range fixed_arith
learn_post_throw-Learned_example = learn_post_throw-Learned irreflexive 0 landed machine refl refl

-- The machine behind the wait for zero.
abbrev zeroed : Machine ℤ ℤ
zeroed = record machine { state = wait_for_complete; commands = led not_ready ∷ [] }

wait_for_zero_run : ended_at (run_state wait_for_zero zeroing machine) ≡ some zeroed
unfolding run_state fixed_arith
wait_for_zero_run = refl

abbrev last_machine : Option (Machine ℤ ℤ) → Machine ℤ ℤ
last_machine none = machine
last_machine (some m) = m

-- The bulk runs at the first reading, and the button is pressed at the second.
abbrev aborting : Visit ℤ
aborting = record {
  spell = spell (
      pass_at 1100 (some (lit 10 0))
      ∷ record (pass_at 1200 (some (lit 20 0))) { button = rst_pressed }
      ∷ []);
  removal = removal;
}

abbrev aborted_charge : Machine ℤ ℤ
aborted_charge = last_machine (ended_at (run_state wait_for_complete aborting zeroed))

aborted_run : ended_at (run_state wait_for_complete aborting zeroed) ≡ some aborted_charge
unfolding run_state fixed_arith tuner_init
aborted_run = refl

aborts_to_exit : aborted_charge.state ≡ exit
unfolding run_state fixed_arith tuner_init
aborts_to_exit = refl

Reaches-Still_example : Still aborted_charge
Reaches-Still_example =
    Reaches-Still (visit zeroing wait_for_zero_run (visit aborting aborted_run here)) (refl, refl)

-- One digit.
abbrev readers : Readers ℤ
readers = record {
  atoi = λ text. get_or text 0 0;
  strtol = λ text. get_or text 0 0;
  strtof = λ text. pos (get_or text 0 0);
  string_to_boolean = λ text. true;
  hex_string_to_decimal = λ text. get_or text 0 0;
}

abbrev loaded : Config ℤ
loaded = record {
  charge = record settings { normal_bracket_steps = 200 };
  fine_stop_threshold = lit 3 2;
  decimal_places = 0;
  normal_charge_colour = 0;
  under_charge_colour = 0;
  over_charge_colour = 0;
  not_ready_colour = 0;
  session_backlight_colour = 0;
}

abbrev requests : List (List Param)
requests = (record { key = c20; value = 0 ∷ [] } ∷ record { key = c18; value = 1 ∷ [] } ∷ []) ∷ []

bracket-configured_example :
    let d = (configured readers 7 loaded requests).charge in
    (charge_mode_get_active_bracket d ≡ of_nat (active_steps d) * lit 2 2)
    × (1 ≤ active_steps d)
    × (active_steps d ≤ 10)
bracket-configured_example = bracket-configured readers 7 loaded requests
