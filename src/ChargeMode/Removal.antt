-- ===== src/ChargeMode/Removal.antt =====
-- charge_mode_wait_for_cup_removal: the throw settles, is topped up, judged, logged and learned from,
-- and the cup is taken away.
pub mod Rules
pub mod Logged
use Prim.Native.Nat.{◌%◌}
use open_trickler_rp2040_con.Prelude.{
  ℕ, zero, suc, Bool, true, false, not, ◌&&◌, if◌then◌else◌, Option, none, some, List, [], ◌∷◌,
}
use open_trickler_rp2040_con.Float.{Floats, lit, neg, ◌+◌, ◌-◌, ◌*◌, ◌/◌, lt, le}
use open_trickler_rp2040_con.RingBuffer.Ring.{FloatRingBuffer, create, enqueue, get_mean}
use open_trickler_rp2040_con.SessionStats.{ThrowResult, pass, under, over, session_stats_record}
use open_trickler_rp2040_con.ChargeMode.State.{
  BracketMode, normal, match_mode, ChargeData, exit, wait_for_cup_return, Pass,
  charge_mode_get_active_bracket,
}
use open_trickler_rp2040_con.ChargeMode.Motors.{
  Colour, normal_charge, under_charge, over_charge, default_colour, led,
}
use open_trickler_rp2040_con.ChargeMode.World.{Machine, Spell, with_state, tell}
use open_trickler_rp2040_con.ChargeMode.Phase.{
  Poll, again, out, poll, Phase, waiting, left, done, pure, modify, ◌>>=◌,
}
use open_trickler_rp2040_con.ChargeMode.Learn.{Landed, learn_post_throw}
use open_trickler_rp2040_con.ChargeMode.Charge.{is_rst}
use open_trickler_rp2040_con.ChargeMode.Settle.{
  steady, charge_mode_wait_for_settle, charge_mode_top_up,
}

-- What the world answers: the first settling, for each top-up its loop and the settling behind it, the
-- tick that the log reads, and the loop that waits for the cup.
pub record RemovalScript (F : Type 0) : Type 0 where
  pub settling : Spell F
  pub top_ups : List (Spell F × Spell F)
  pub log_tick : ℕ
  pub cup : Spell F

abbrev pub mode_number : BracketMode → ℕ
mode_number normal = 0
mode_number match_mode = 1

module _ {F : Type 0} ⦃fl : Floats F⦄ where
  open fl use {D}

  -- The slow tracking of the lag, kept in 0 to 3 seconds.
  unfoldable pub track_lag : F → F → F
  track_lag current measured =
      let updated = lit 8 1 * current + lit 2 1 * measured in
      let floored = if lt updated (lit 0 0) then lit 0 0 else updated in
      if lt (lit 30 1) floored then lit 30 1 else floored

  unfoldable pub learn_lag : F → Machine F D → Machine F D
  unfolding track_lag
  learn_lag measured m =
      let c = m.settings in
      let tracked =
        if c.auto_lag_enable && not c.predict_enable
        then record c { fine_lag_s = track_lag c.fine_lag_s measured }
        else c in
      record m { last_measured_lag = measured; settings = tracked }

  unfoldable pub measure_lag : F → Machine F D → Machine F D
  unfolding learn_lag
  measure_lag current m =
      let tail = current - m.weight_at_stop in
      let measured = tail / m.rate_at_stop in
      let usable = lt (lit 5 2) m.rate_at_stop && (le (lit 0 0) tail && lt measured (lit 50 1)) in
      record (if usable then learn_lag measured m else m) { rate_at_stop = lit 0 0 }

  -- The loop of at most two attempts over the settled weight.
  unfoldable pub top_up_loop : ℕ → F → List (Spell F × Spell F) → F → Phase F D F
  unfolding charge_mode_top_up charge_mode_wait_for_settle
  top_up_loop zero bracket scripts current m = done current m
  top_up_loop (suc attempts) bracket [] current m =
      if lt (bracket + lit 5 4) (m.target_charge_weight - current) then waiting else done current m
  top_up_loop (suc attempts) bracket ((trickle, settling) ∷ scripts) current m =
      let try_again : Phase F D F = do
        _ ← charge_mode_top_up bracket trickle
        settled ← charge_mode_wait_for_settle 5000 settling
        top_up_loop attempts bracket scripts settled
      in if lt (bracket + lit 5 4) (m.target_charge_weight - current)
        then try_again m
        else done current m

  unfoldable pub judge_throw : F → F → ThrowResult
  judge_throw bracket error =
      if lt error (neg (bracket + lit 5 4))
      then over
      else if lt (bracket + lit 5 4) error
      then under
      else pass

  -- The lamp and the event bits.
  unfoldable pub show_result : ThrowResult → Machine F D → Machine F D
  show_result over m = record (tell (led over_charge) m) { over_charge = true }
  show_result under m = record (tell (led under_charge) m) { under_charge = true }
  show_result pass m = record (tell (led normal_charge) m) {
    over_charge = false;
    under_charge = false;
  }

  unfoldable pub log_throw : ℕ → F → F → ThrowResult → Machine F D → Machine F D
  unfolding session_stats_record learn_post_throw
  log_throw now bracket current result m =
      let idx = m.profile_data.current_profile_idx % 256 in
      let logged : Machine F D = record m {
        throw_pending_record = false;
        log =
            session_stats_record now
              (record {
                target = m.target_charge_weight;
                actual = current;
                total_s = m.last_charge_elapsed_seconds;
                coarse_s = m.last_coarse_elapsed_seconds;
                bracket = bracket;
                result = result;
                profile_idx = idx;
                mode = mode_number m.settings.bracket_mode;
              })
              m.log;
      } in
      let landed : Landed F = record {
        result = result;
        bracket = bracket;
        total_s = m.last_charge_elapsed_seconds;
        coarse_stop_predicted = m.last_coarse_stop_weight;
        error_gr = current - m.target_charge_weight;
      } in
      if m.throw_pending_record then learn_post_throw idx landed logged else m

  unfoldable pub judge_and_log : ℕ → F → F → Machine F D → Machine F D
  unfolding judge_throw show_result log_throw
  judge_and_log now bracket current m =
      let result = judge_throw bracket (m.target_charge_weight - current) in
      log_throw now bracket current result (show_result result m)

  -- A pass of the last loop; the result is false by the button.
  unfoldable pub cup_pass :
      ChargeData F → Pass F → FloatRingBuffer F → Poll (FloatRingBuffer F) Bool
  unfolding enqueue steady get_mean
  cup_pass c p ring = if is_rst p.button then out false else elim p.measurement [
    | none ↦ again ring
    | some x ↦
        let ring' = enqueue x ring in
        if steady 5 c.set_point_sd_margin ring'
          && lt (get_mean ring' + lit 100 1) c.set_point_mean_margin
        then out true
        else again ring'
  ]

  unfoldable pub cup_gone : Option Bool → Phase F D Unit
  cup_gone none m = waiting
  cup_gone (some false) m = left (with_state exit m)
  cup_gone (some true) m = done tt (with_state wait_for_cup_return (tell (led default_colour) m))

  unfoldable pub wait_for_cup : Spell F → Phase F D Unit
  unfolding cup_pass poll create cup_gone
  wait_for_cup s m = cup_gone (poll (cup_pass m.settings) s.passes (create 5 s.memory)) m

  unfoldable pub charge_mode_wait_for_cup_removal : RemovalScript F → Phase F D Unit
  unfolding charge_mode_get_active_bracket charge_mode_wait_for_settle measure_lag top_up_loop
      judge_and_log wait_for_cup
  charge_mode_wait_for_cup_removal s m =
      let bracket = charge_mode_get_active_bracket m.settings in
      let phase : Phase F D Unit = do
        first ← charge_mode_wait_for_settle 5000 s.settling
        _ ← modify (measure_lag first)
        current ← top_up_loop 2 bracket s.top_ups first
        _ ← modify (judge_and_log s.log_tick bracket current)
        wait_for_cup s.cup
      in phase m
