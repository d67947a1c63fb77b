-- ===== src/ChargeMode/Complete.antt =====
-- charge_mode_wait_for_complete around its loop: the constants before it, and what follows the break.
use open_trickler_rp2040_con.Prelude.{ℕ, true, false, ◌&&◌, if◌then◌else◌}
use open_trickler_rp2040_con.Float.{Floats, lit, ◌+◌, ◌-◌, fmaxf, fminf}
use open_trickler_rp2040_con.Profile.{Profile}
use open_trickler_rp2040_con.ChargeMode.State.{
  exit, wait_for_cup_removal, ticks_since, seconds, charge_mode_get_active_bracket,
  handoff_for_target,
}
use open_trickler_rp2040_con.ChargeMode.Motors.{coarse, led, under_charge, delay, motor_set_speed}
use open_trickler_rp2040_con.ChargeMode.World.{
  Machine, Spell, with_state, tell, drive_motor, move_gate, profile_get_selected,
}
use open_trickler_rp2040_con.ChargeMode.Phase.{Phase, waiting, left, done, with_profile}
use open_trickler_rp2040_con.ChargeMode.Learn.{learn_landing_trim}
use open_trickler_rp2040_con.ChargeMode.Charge.{
  Plan, Loop, Step, running, exited, finished, charge_loop,
}

module _ {F : Type 0} ⦃fl : Floats F⦄ where
  open fl use {D, double, widen, narrow}

  -- `fmin(get_motor_max_speed(...), ...)` is a double's, since get_motor_max_speed is a uint16_t.
  unfoldable pub max_speed : ℕ → F → F
  max_speed motor profile = narrow (double.fmin (double.of_nat motor) (widen profile))

  unfoldable pub lag : F → F
  lag s = fmaxf (lit 0 0) (fminf s (lit 30 1))

  unfoldable pub plan_of : Machine F D → Profile F → ℕ → Plan F
  unfolding max_speed lag charge_mode_get_active_bracket handoff_for_target learn_landing_trim
  plan_of m p start =
      let target = m.target_charge_weight in
      record {
        settings = m.settings;
        start_tick = start;
        coarse_kp = p.coarse_kp;
        coarse_ki = p.coarse_ki;
        coarse_kd = p.coarse_kd;
        fine_kp = p.fine_kp;
        fine_ki = p.fine_ki;
        fine_kd = p.fine_kd;
        coarse_max = max_speed m.motor_limits.coarse_max_speed p.coarse_max_flow_speed_rps;
        coarse_min = fmaxf m.motor_limits.coarse_min_speed p.coarse_min_flow_speed_rps;
        fine_max = max_speed m.motor_limits.fine_max_speed p.fine_max_flow_speed_rps;
        fine_min = fmaxf m.motor_limits.fine_min_speed p.fine_min_flow_speed_rps;
        coarse_target = fmaxf (lit 0 0) (target - handoff_for_target m.settings target);
        fine_aim = target + learn_landing_trim m;
        fine_stop_threshold = charge_mode_get_active_bracket m.settings + lit 5 4;
        coarse_lag = lag m.settings.coarse_lag_s;
        fine_lag = lag m.settings.fine_lag_s;
        gate_enable = m.gate_enable;
      }

  -- The variables before the first pass. A backoff of an earlier throw no longer counts.
  unfoldable pub loop_of : Machine F D → ℕ → ℕ → Loop F
  loop_of m start began = record {
    last_sample_tick = began;
    last_valid_tick = began;
    should_coarse_move = true;
    coarse_integral = lit 0 0;
    fine_integral = lit 0 0;
    coarse_last_error = lit 0 0;
    fine_last_error = lit 0 0;
    coarse_stop_tick = start;
    last_coarse_stop_weight = lit 0 0;
    rate_gps = lit 0 0;
    last_weight = lit 0 0;
    have_last_weight = false;
    start_weight = lit 0 0;
    have_start_weight = false;
    motion_seen = false;
    last_dead_time_s = lit 0 0;
    backoff_in_progress = false;
    backoff_end_tick = 0;
    weight_at_stop = m.weight_at_stop;
    rate_at_stop = m.rate_at_stop;
    commands = m.commands;
  }

  -- What the loop leaves in the file's statics.
  abbrev pub keep_loop : Loop F → Machine F D → Machine F D
  keep_loop l m = record m {
    last_coarse_stop_weight = l.last_coarse_stop_weight;
    weight_at_stop = l.weight_at_stop;
    rate_at_stop = l.rate_at_stop;
    last_dead_time_s = l.last_dead_time_s;
    commands = l.commands;
  }

  -- The gate is closed, and the tube primed for the next throw if that is configured.
  unfoldable pub close_and_precharge : Machine F D → Machine F D
  unfolding motor_set_speed
  close_and_precharge m =
      let closed = move_gate (lit 10 1) true m in
      let c = m.settings in
      if c.precharge_enable && m.gate_enable
      then drive_motor coarse (lit 0 0) (
          tell (delay c.precharge_time_ms)
            (drive_motor coarse c.precharge_speed_rps (tell (delay 500) closed)))
      else tell (delay 20) closed

  -- Behind the break, at the tick `now`.
  unfoldable pub after_charge : ℕ → ℕ → Loop F → Machine F D → Machine F D
  unfolding close_and_precharge
  after_charge start now l m =
      let coarse_end = if l.should_coarse_move then now else l.coarse_stop_tick in
      with_state wait_for_cup_removal (
        close_and_precharge (record (keep_loop l m) {
          last_charge_elapsed_seconds = seconds (ticks_since now start);
          last_coarse_elapsed_seconds = seconds (ticks_since coarse_end start);
          last_coarse_stop_weight =
              if l.should_coarse_move then m.target_charge_weight else l.last_coarse_stop_weight;
          throw_pending_record = true;
        }))

  -- Before the loop: the lamp, and the gate opens.
  unfoldable pub before_charge : Machine F D → Machine F D
  before_charge m = move_gate (lit 0 0) false (tell (led under_charge) m)

  unfoldable pub end_of_charge : Spell F → Step (Loop F) → Phase F D Unit
  unfolding after_charge
  end_of_charge s (running l) m = waiting
  end_of_charge s (exited l) m = left (with_state exit (keep_loop l m))
  end_of_charge s (finished l) m = done tt (after_charge s.start s.finish l m)

  unfoldable pub charge_with : Spell F → Profile F → Phase F D Unit
  unfolding before_charge plan_of loop_of charge_loop end_of_charge
  charge_with s p m =
      let ready = before_charge m in
      let end = charge_loop (plan_of m p s.start) s.passes (loop_of ready s.start s.began) in
      end_of_charge s end.0 ready

  unfoldable pub charge_mode_wait_for_complete : Spell F → Phase F D Unit
  unfolding profile_get_selected charge_with
  charge_mode_wait_for_complete s m =
      with_profile (charge_with s) (profile_get_selected m.profile_data) m
