-- ===== src/ChargeMode/Charge.antt =====
-- charge_mode_wait_for_complete: the loop that runs both tubes by the scale until the reading is inside
-- the bracket. Settings and profile are those at its start.
pub mod Stop
pub mod Safety
use Prim.Native.Nat.{◌+◌ as nat_add}
use open_trickler_rp2040_con.Prelude.{
  ℕ, Bool, true, false, not, ◌&&◌, leb, ltb, ◌==◌, if◌then◌else◌, Option, none, some, List, [], ◌∷◌,
}
use open_trickler_rp2040_con.Float.{
  Floats, lit, of_nat, neg, ◌+◌, ◌-◌, ◌*◌, ◌/◌, lt, le, fabs, fmaxf, fminf, is_finite, trunc,
}
use open_trickler_rp2040_con.ChargeMode.State.{
  ChargeData, Button, no_event, rst_pressed, encoder_pressed, rotated, Pass, ticks_since, tick_add,
  charge_scale_timeout_ms, seconds,
}
use open_trickler_rp2040_con.ChargeMode.Motors.{
  Motor, coarse, fine, both, Commands, set_ratio, motor_set_speed,
}

-- The constants of the loop, computed before it.
pub record Plan (F : Type 0) : Type 0 where
  pub settings : ChargeData F
  pub start_tick : ℕ
  pub coarse_kp : F
  pub coarse_ki : F
  pub coarse_kd : F
  pub fine_kp : F
  pub fine_ki : F
  pub fine_kd : F
  pub coarse_max : F
  pub coarse_min : F
  pub fine_max : F
  pub fine_min : F
  pub coarse_target : F
  pub fine_aim : F
  pub fine_stop_threshold : F
  pub coarse_lag : F
  pub fine_lag : F
  pub gate_enable : Bool

-- The variables of the loop, its locals and the file's statics, with the commands so far.
pub record Loop (F : Type 0) : Type 0 where
  pub last_sample_tick : ℕ
  pub last_valid_tick : ℕ
  pub should_coarse_move : Bool
  pub coarse_integral : F
  pub fine_integral : F
  pub coarse_last_error : F
  pub fine_last_error : F
  pub coarse_stop_tick : ℕ
  pub last_coarse_stop_weight : F
  pub rate_gps : F
  pub last_weight : F
  pub have_last_weight : Bool
  pub start_weight : F
  pub have_start_weight : Bool
  pub motion_seen : Bool
  pub last_dead_time_s : F
  pub backoff_in_progress : Bool
  pub backoff_end_tick : ℕ
  pub weight_at_stop : F
  pub rate_at_stop : F
  pub commands : Commands F

-- What a pass does: the loop goes on, returns with the exit state, or breaks.
pub data Step (A : Type 0) : Type 0 where
  running : A → Step A
  exited : A → Step A
  finished : A → Step A

abbrev pub is_rst : Button → Bool
is_rst rst_pressed = true
is_rst no_event = false
is_rst encoder_pressed = false
is_rst rotated = false

module _ {F : Type 0} ⦃fl : Floats F⦄ where
  abbrev pub send : Motor → F → Loop F → Loop F
  send m v l = record l { commands = motor_set_speed m v l.commands }

  unfoldable pub backoff_ms : ChargeData F → F → ℕ
  backoff_ms c speed =
      let ms = trunc (c.coarse_stop_backoff_turns / fabs speed * lit 10000 1) in
      if ltb 15000 ms then 15000 else ms

  -- The time of coarse_trickler_backoff is zero where it returns early.
  unfoldable pub coarse_trickler_backoff : Plan F → ℕ → Loop F → Loop F
  unfolding backoff_ms motor_set_speed
  coarse_trickler_backoff plan now l =
      let c = plan.settings in
      let configured = c.coarse_stop_backoff_speed_rps in
      let speed = if le configured (lit 0 0) then plan.coarse_min else configured in
      let ms = backoff_ms c speed in
      let back = record (send coarse (neg (fabs speed)) l) {
        backoff_in_progress = true;
        backoff_end_tick = tick_add now ms;
      } in
      if not c.coarse_stop_backoff_enable
      then l
      else if le c.coarse_stop_backoff_turns (lit 0 0)
      then l
      else if le speed (lit 0 0)
      then l
      else if ms == 0
      then l
      else back

  -- The time without a reading is up, or the loop polls again.
  unfoldable pub no_reading : Pass F → Loop F → Step (Loop F)
  unfolding motor_set_speed
  no_reading p l =
      if leb charge_scale_timeout_ms (ticks_since p.now l.last_valid_tick)
      then exited (send both (lit 0 0) l)
      else running l

  unfoldable pub end_backoff : ℕ → Loop F → Loop F
  unfolding motor_set_speed
  end_backoff now l =
      if l.backoff_in_progress && leb l.backoff_end_tick now
      then record (send coarse (lit 0 0) l) { backoff_in_progress = false }
      else l

  unfoldable pub note_motion : Plan F → F → ℕ → Loop F → Loop F
  note_motion plan w now l =
      if not l.have_start_weight
      then record l { start_weight = w; have_start_weight = true }
      else if not l.motion_seen && lt (l.start_weight + lit 10 2) w
      then record l {
        motion_seen = true;
        last_dead_time_s = seconds (ticks_since now plan.start_tick);
      }
      else l

  -- The smoothed rate of climb.
  unfoldable pub note_rate : F → ℕ → Loop F → Loop F
  note_rate w now l =
      let dt = seconds (ticks_since now l.last_sample_tick) in
      let slope = (w - l.last_weight) / dt in
      let inst = if lt slope (lit 0 0) then lit 0 0 else slope in
      record l {
        rate_gps =
            if l.have_last_weight && lt (lit 0 0) dt
            then lit 6 1 * l.rate_gps + lit 4 1 * inst
            else l.rate_gps;
        last_weight = w;
        have_last_weight = true;
      }

  unfoldable pub predicted_weight : Plan F → F → Loop F → F
  predicted_weight plan w l =
      let lag = if l.should_coarse_move then plan.coarse_lag else plan.fine_lag in
      if plan.settings.predict_enable then w + l.rate_gps * lag else w

  -- The branch that stops both motors and breaks.
  unfoldable pub stop_here : F → Loop F → Loop F
  unfolding motor_set_speed
  stop_here w l = record (send coarse (lit 0 0) (send fine (lit 0 0) l)) {
    weight_at_stop = w;
    rate_at_stop = l.rate_gps;
  }

  -- The branch that stops the bulk, moves the gate and turns the tube back.
  unfoldable pub stop_coarse : Plan F → F → ℕ → ℕ → Loop F → Loop F
  unfolding motor_set_speed coarse_trickler_backoff
  stop_coarse plan predicted now later l =
      let stopped = record (send coarse (lit 0 0) l) {
        should_coarse_move = false;
        coarse_stop_tick = now;
        last_coarse_stop_weight = predicted;
      } in
      let gated = record stopped {
        commands =
            if plan.gate_enable
            then set_ratio plan.settings.coarse_stop_gate_ratio false ∷ stopped.commands
            else stopped.commands;
      } in
      coarse_trickler_backoff plan later gated

  -- `(error - last_error) / elapse_time_ms`, or zero.
  abbrev pub derivative : F → F → ℕ → F
  derivative error last_error elapsed =
      if lt {F = F} (lit 0 0) (of_nat elapsed)
      then (error - last_error) / of_nat elapsed
      else lit 0 0

  unfoldable pub run_fine : Plan F → F → ℕ → Loop F → Loop F
  unfolding motor_set_speed
  run_fine plan error elapsed l =
      let integral = l.fine_integral + error in
      let pid =
        plan.fine_kp * error
        + plan.fine_ki * integral
        + plan.fine_kd * derivative error l.fine_last_error elapsed in
      let speed = fmaxf plan.fine_min (fminf pid plan.fine_max) in
      let hold = plan.settings.predict_enable && le error (lit 0 0) in
      record (send fine (if hold then lit 0 0 else speed) l) { fine_integral = integral }

  unfoldable pub run_coarse : Plan F → F → ℕ → Loop F → Loop F
  unfolding motor_set_speed
  run_coarse plan error elapsed l =
      let integral = l.coarse_integral + error in
      let pid =
        plan.coarse_kp * error
        + plan.coarse_ki * integral
        + plan.coarse_kd * derivative error l.coarse_last_error elapsed in
      if l.should_coarse_move && not l.backoff_in_progress
      then record (send coarse (fmaxf plan.coarse_min (fminf pid plan.coarse_max)) l) {
        coarse_integral = integral;
      }
      else l

  -- The pass behind the stop condition.
  unfoldable pub drive : Plan F → F → ℕ → ℕ → Loop F → Loop F
  unfolding stop_coarse run_fine run_coarse
  drive plan predicted now later l =
      let coarse_error = plan.coarse_target - predicted in
      let fine_error = plan.fine_aim - predicted in
      let elapsed = ticks_since now l.last_sample_tick in
      let l1 =
        if le coarse_error (lit 0 0) && l.should_coarse_move
        then stop_coarse plan predicted now later l
        else l in
      let l2 = run_coarse plan coarse_error elapsed (run_fine plan fine_error elapsed l1) in
      record l2 {
        last_sample_tick = now;
        fine_last_error = fine_error;
        coarse_last_error = coarse_error;
      }

  -- A pass with a finite reading `w`, up to the stop condition.
  unfoldable pub observe : Plan F → F → ℕ → Loop F → Loop F
  unfolding end_backoff note_motion note_rate
  observe plan w now l =
      note_rate w now
        (note_motion plan w now (end_backoff now (record l { last_valid_tick = now })))

  unfoldable pub on_reading : Plan F → F → ℕ → ℕ → Loop F → Step (Loop F)
  unfolding observe predicted_weight stop_here drive
  on_reading plan w now later l =
      let l' = observe plan w now l in
      if lt (plan.fine_aim - w) plan.fine_stop_threshold
      then finished (stop_here w l')
      else running (drive plan (predicted_weight plan w l') now later l')

  -- The reading, if there is one and it is finite.
  abbrev pub valid_reading : Option F → Option F
  valid_reading none = none
  valid_reading (some w) = if is_finite w then some w else none

  abbrev pub measured : Plan F → Pass F → Loop F → Option F → Step (Loop F)
  measured plan p l none = no_reading p l
  measured plan p l (some w) = on_reading plan w p.now p.after l

  unfoldable pub charge_pass : Plan F → Pass F → Loop F → Step (Loop F)
  unfolding no_reading on_reading motor_set_speed
  charge_pass plan p l =
      if is_rst p.button
      then exited (send both (lit 0 0) l)
      else measured plan p l (valid_reading p.measurement)

  -- What the loop does behind a pass that leaves the passes `left`, itself the first.
  abbrev pub follow :
      (Loop F → Step (Loop F) × List (Pass F))
      → List (Pass F)
      → Step (Loop F)
      → Step (Loop F) × List (Pass F)
  follow go left (running l) = go l
  follow go left (exited l) = (exited l, left)
  follow go left (finished l) = (finished l, left)

  -- The loop: `running` if the passes end before it does, and behind it the pass that ended it and the
  -- passes that are left.
  unfoldable pub charge_loop : Plan F → List (Pass F) → Loop F → Step (Loop F) × List (Pass F)
  unfolding charge_pass
  charge_loop plan [] l = (running l, [])
  charge_loop plan (p ∷ ps) l = follow (charge_loop plan ps) (p ∷ ps) (charge_pass plan p l)
