-- ===== src/LearnMode/Throw.antt =====
-- throw_for_time: one tube runs at a fixed speed for a fixed time, and what landed is measured.
pub mod Motion
pub mod Ends
pub mod Bounds
use open_trickler_rp2040_con.Prelude.{
  ℕ, Bool, true, false, not, ◌&&◌, leb, if◌then◌else◌, Option, none, some, List,
}
use open_trickler_rp2040_con.Float.{
  Floats, lit, neg, ◌+◌, ◌-◌, ◌*◌, ◌/◌, lt, le, fmaxf, is_finite, trunc,
}
use open_trickler_rp2040_con.ChargeMode.State.{
  Pass, ticks_since, tick_add, charge_scale_timeout_ms, seconds,
}
use open_trickler_rp2040_con.ChargeMode.Motors.{Motor, coarse, fine, motor_set_speed}
use open_trickler_rp2040_con.ChargeMode.World.{Spell, drive_motor, move_gate}
use open_trickler_rp2040_con.ChargeMode.Phase.{
  Poll, again, out, poll, waiting, left, pure, modify, ◌>>=◌,
}
use open_trickler_rp2040_con.ChargeMode.Charge.{is_rst}
use open_trickler_rp2040_con.LearnMode.{End, ready, aborted, failed}
use open_trickler_rp2040_con.LearnMode.State.{
  LearnState, LearnThrow, Learner, Learning, with_learn_state, with_machine, end_wait,
}
use open_trickler_rp2040_con.LearnMode.Cup.{
  ZeroScript, CupScript, settle, zero_scale, ensure_cup_room,
}

-- The tube of a throw, with the motor and the static that go with it.
pub data Tube : Type 0 where
  coarse_tube fine_tube : Tube

abbrev pub motor_of : Tube → Motor
motor_of coarse_tube = coarse
motor_of fine_tube = fine

-- A pass of the run; `moved` is the tick that is read where the motion is first seen.
pub record RunPass (F : Type 0) : Type 0 where
  pub pass : Pass F
  pub moved : ℕ

-- What the world answers to a throw: the cup, the reading before the start, the run with the ticks
-- around it, and the waits behind it.
pub record ThrowScript (F : Type 0) : Type 0 where
  pub cup : CupScript F
  pub base : F
  pub start : ℕ
  pub passes : List (RunPass F)
  pub stop : ℕ
  pub settling : Spell F
  pub zero : ZeroScript F

-- The variables of the run.
pub record Run (F : Type 0) : Type 0 where
  pub last_valid_tick : ℕ
  pub latest : F
  pub motion_seen : Bool
  pub dead_time_s : F

module _ {F D : Type 0} where
  abbrev pub max_settled : Tube → Learner F D → F
  max_settled coarse_tube l = l.max_settled_coarse
  max_settled fine_tube l = l.max_settled_fine

  abbrev pub with_max_settled : Tube → F → Learner F D → Learner F D
  with_max_settled coarse_tube x l = record l { max_settled_coarse = x }
  with_max_settled fine_tube x l = record l { max_settled_fine = x }

module _ {F : Type 0} ⦃fl : Floats F⦄ where
  open fl use {D}

  -- A reading, finite or not.
  unfoldable pub read_weight : F → ℕ → RunPass F → F → Run F → Run F
  read_weight base start p x r =
      if is_finite x
      then (let moving = not r.motion_seen && lt (base + lit 10 2) x in
          record {
            last_valid_tick = p.pass.now;
            latest = x;
            motion_seen = if moving then true else r.motion_seen;
            dead_time_s = if moving then seconds (ticks_since p.moved start) else r.dead_time_s;
          })
      else r

  unfoldable pub take_reading : F → ℕ → RunPass F → Option F → Run F → Run F
  unfolding read_weight
  take_reading base start p none r = r
  take_reading base start p (some x) r = read_weight base start p x r

  unfoldable pub run_pass : F → ℕ → ℕ → RunPass F → Run F → Poll (Run F) (End × Run F)
  unfolding take_reading
  run_pass base start stop_target p r =
      let r' = take_reading base start p p.pass.measurement r in
      if leb stop_target p.pass.head
      then out (ready, r)
      else if is_rst p.pass.button
      then out (aborted, r)
      else if leb charge_scale_timeout_ms (ticks_since p.pass.after r'.last_valid_tick)
      then out (failed, r')
      else again r'

  abbrev pub first_run : F → ℕ → Run F
  first_run base start = record {
    last_valid_tick = start;
    latest = base;
    motion_seen = false;
    dead_time_s = lit 0 0;
  }

  abbrev pub stop_target_of : ℕ → F → ℕ
  stop_target_of start run_s = tick_add start (trunc (run_s * lit 10000 1))

  unfoldable pub run_loop : F → F → ThrowScript F → Option (End × Run F)
  unfolding run_pass poll
  run_loop base run_s s =
      poll (run_pass base s.start (stop_target_of s.start run_s)) s.passes (first_run base s.start)

  unfoldable pub clamp_lag : F → F
  clamp_lag lag =
      let floored = if lt lag (lit 0 0) then lit 0 0 else lag in
      if lt (lit 50 1) floored then lit 50 1 else floored

  -- The fields of the throw, by the run's figures.
  unfoldable pub measure_throw : F → F → F → F → F → F → LearnThrow F
  unfolding clamp_lag
  measure_throw speed run_s base stop_weight mass dead_time_s =
      let flow = mass / run_s in
      let tail = mass - (stop_weight - base) in
      record {
        speed_rps = speed;
        time_s = run_s;
        stop_weight = stop_weight - base;
        settled_weight = mass;
        flow_gps = flow;
        tail = tail;
        rate_at_stop = flow;
        lag_s = clamp_lag (if lt (lit 2 2) flow then tail / flow else lit 0 0);
        dead_time_s = dead_time_s;
      }

  -- The throw is written through `out` by `keep`, and what landed is counted.
  unfoldable pub load_cup :
      Tube → (LearnThrow F → Learner F D → Learner F D) → LearnThrow F → Learner F D → Learner F D
  load_cup tube keep t l =
      let mass = t.settled_weight in
      let l' = keep t l in
      let heaviest = if lt (max_settled tube l') mass then with_max_settled tube mass l' else l' in
      record heaviest { cup_load_gr = heaviest.cup_load_gr + mass }

  -- Behind the settling.
  unfoldable pub judge_throw :
      Tube
      → (LearnThrow F → Learner F D → Learner F D)
      → LearnThrow F
      → ZeroScript F
      → Learning F D (LearnThrow F)
  unfolding load_cup zero_scale
  judge_throw tube keep t s l =
      let zeroed : Learning F D (LearnThrow F) = do _ ← zero_scale s; pure t
      in if lt t.settled_weight (lit 5 2)
        then left (with_learn_state LearnState.error (load_cup tube keep t l))
        else zeroed (load_cup tube keep t l)

  -- The time that the motor ran, never zero.
  abbrev pub run_time : ℕ → ℕ → F
  run_time start stop =
      let t = seconds (ticks_since stop start) in if le t (lit 0 0) then lit 1 3 else t

  -- Behind the run, which `r` ended well.
  unfoldable pub measure :
      Tube
      → (LearnThrow F → Learner F D → Learner F D)
      → F
      → F
      → ThrowScript F
      → Run F
      → Learning F D (LearnThrow F)
  unfolding settle measure_throw judge_throw
  measure tube keep speed base s r l =
      let measured : Learning F D (LearnThrow F) = do
        settled ← settle s.settling
        let mass = if lt (settled - base) (lit 0 0) then lit 0 0 else settled - base
        let t = measure_throw speed (run_time s.start s.stop) base r.latest mass r.dead_time_s
        judge_throw tube keep t s.zero
      in measured l

  -- From the motor's start to its stop, which every end of the loop comes to.
  unfoldable pub run_tube : Tube → F → F → F → ThrowScript F → Learning F D (Run F)
  unfolding run_loop motor_set_speed end_wait
  run_tube tube speed run_s base s l =
      let run = with_machine (drive_motor (motor_of tube) speed) l in
      end_wait (run_loop base run_s s) (with_machine (drive_motor (motor_of tube) (lit 0 0)) run)

  -- Once there is room in the cup: the gate opens, the tube runs, and what lands is measured.
  unfoldable pub throw_tube :
      Tube
      → (LearnThrow F → Learner F D → Learner F D)
      → F
      → F
      → ThrowScript F
      → Learning F D (LearnThrow F)
  unfolding run_tube measure
  throw_tube tube keep speed run_s s l =
      let base = if lt s.base (neg (lit 10 1)) then lit 0 0 else s.base in
      let throw : Learning F D (LearnThrow F) = do
        _ ← modify (with_machine (move_gate (lit 0 0) true))
        _ ← modify (λ l. record l { current_speed = speed })
        r ← run_tube tube speed run_s base s
        measure tube keep speed base s r
      in throw l

  unfoldable pub throw_for_time :
      Tube
      → (LearnThrow F → Learner F D → Learner F D)
      → F
      → F
      → F
      → ThrowScript F
      → Learning F D (LearnThrow F)
  unfolding ensure_cup_room throw_tube
  throw_for_time tube keep speed run_s expected_gr s l =
      let throw : Learning F D (LearnThrow F) = do
        _ ← ensure_cup_room s.cup (fmaxf expected_gr (max_settled tube l) * lit 115 2)
        throw_tube tube keep speed run_s s
      in throw l
