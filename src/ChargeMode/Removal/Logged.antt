-- ===== src/ChargeMode/Removal/Logged.antt =====
-- A throw goes into the log once, whatever happens around it; and what the lag's tracking may store.
use Prim.Native.Nat.{◌+◌ as nat_add, ◌%◌}
use mathlib.Core.Path.{subst}
use open_trickler_rp2040_con.Prelude.{
  ℕ, ◌≡◌, refl, sym, ap, ap₂, ◌∙◌, ◌⊎◌, inl, inr, Bool, true, false, not, ◌&&◌, ltb, set, if-cases,
  if-holds, if◌then◌else◌, arith, inc32,
}
use open_trickler_rp2040_con.Float.{Floats, lit, ◌-◌, ◌/◌, lt, le}
use open_trickler_rp2040_con.Tuner.Limits.{Irreflexive, Within}
use open_trickler_rp2040_con.SessionStats.{
  Stats, Throw, ThrowRecord, ThrowResult, pass, under, over, session_stats_record,
}
use open_trickler_rp2040_con.ChargeMode.State.{BracketMode, charge_mode_get_active_bracket}
use open_trickler_rp2040_con.ChargeMode.World.{Machine}
use open_trickler_rp2040_con.ChargeMode.Phase.Rules.{Ends}
use open_trickler_rp2040_con.ChargeMode.Learn.{Landed, tune, learn_post_throw}
use open_trickler_rp2040_con.ChargeMode.Settle.{end_top_up}
use open_trickler_rp2040_con.ChargeMode.Removal.{
  RemovalScript, track_lag, learn_lag, measure_lag, show_result, log_throw, judge_and_log,
  judge_throw, mode_number, charge_mode_wait_for_cup_removal,
}
use open_trickler_rp2040_con.ChargeMode.Removal.Rules.{Kept, Closed, removal-Ends}

module _ {F : Type 0} ⦃fl : Floats F⦄ where
  open fl use {D}

  -- What a throw's record is made of, and whether there is still one to make.
  abbrev pub facts : Machine F D → Stats F D × Bool × F × F × BracketMode × ℕ
  facts m = (
    m.log, m.throw_pending_record, m.target_charge_weight, m.last_coarse_elapsed_seconds,
    m.settings.bracket_mode, m.profile_data.current_profile_idx,
  )

  abbrev pub Unlogged : Machine F D → Machine F D → Type 0
  Unlogged m0 m = facts m ≡ facts m0

  -- The record of the throw that is pending in `m0`, weighed at `actual` after `total_s`: its number is the next, its result
  -- the judgement by the bracket in use.
  abbrev pub entry : ℕ → F → F → Machine F D → ThrowRecord F
  entry now actual total_s m0 =
      let bracket = charge_mode_get_active_bracket m0.settings in
      record {
        seq = inc32 m0.log.seq_counter;
        uptime_ms = now;
        target = m0.target_charge_weight;
        actual = actual;
        total_s = total_s;
        coarse_s = m0.last_coarse_elapsed_seconds;
        bracket = bracket;
        result = judge_throw bracket (m0.target_charge_weight - actual);
        profile_idx = m0.profile_data.current_profile_idx % 256;
        mode = mode_number m0.settings.bracket_mode;
      }

  -- The log of `m0` with one record more, at its head, or the log of `m0`.
  abbrev pub OneMore : ℕ → F → F → Machine F D → Stats F D → Type 0
  OneMore now actual total_s m0 l =
      (l.log_buffer ≡ set m0.log.log_buffer m0.log.log_head (entry now actual total_s m0))
      × (l.log_head ≡ (nat_add m0.log.log_head 1) % 400)
      × (l.log_count
          ≡ (if ltb m0.log.log_count 400 then nat_add m0.log.log_count 1 else m0.log.log_count))
      × (l.seq_counter ≡ inc32 m0.log.seq_counter)

  -- No throw is pending, and the log has one record more if one was pending in `m0`, and none otherwise.
  abbrev pub Logged : ℕ → Machine F D → Machine F D → Type 0
  Logged now m0 m =
      (m.throw_pending_record ≡ false)
      × (((m0.throw_pending_record ≡ true)
            × ((actual : F) × OneMore now actual m.last_charge_elapsed_seconds m0 m.log))
          ⊎ ((m0.throw_pending_record ≡ false) × (m.log ≡ m0.log)))

  learn_post_throw-log :
      (i : ℕ) (x : Landed F) (m : Machine F D)
      → let m' = learn_post_throw i x m in
        (m'.log ≡ m.log)
        × (m'.throw_pending_record ≡ m.throw_pending_record)
        × (m'.last_charge_elapsed_seconds ≡ m.last_charge_elapsed_seconds)
  unfolding learn_post_throw tune
  learn_post_throw-log i x m = ground arith

  show_result-Unlogged : (r : ThrowResult) (m : Machine F D) → Unlogged m (show_result r m)
  unfolding show_result
  show_result-Unlogged pass m = refl
  show_result-Unlogged under m = refl
  show_result-Unlogged over m = refl

  learn_lag-Unlogged :
      (x : F) (m : Machine F D) → Unlogged m (record (learn_lag x m) { rate_at_stop = lit 0 0 })
  unfolding learn_lag
  learn_lag-Unlogged x m =
      let c = m.settings in
      if-holds (λ c'. facts (record m { last_measured_lag = x; settings = c' }) ≡ facts m)
        (c.auto_lag_enable && not c.predict_enable) refl refl

  measure_lag-Unlogged : (x : F) (m : Machine F D) → Unlogged m (measure_lag x m)
  unfolding measure_lag
  measure_lag-Unlogged x m =
      let tail = x - m.weight_at_stop in
      let measured = tail / m.rate_at_stop in
      let c = m.settings in
      if-holds (λ m'. facts (record m' { rate_at_stop = lit 0 0 }) ≡ facts m)
        (lt (lit 5 2) m.rate_at_stop && (le (lit 0 0) tail && lt measured (lit 50 1)))
        (learn_lag-Unlogged measured m) refl

  -- The throw that is logged, by the facts.
  abbrev throw_of : F → F → F → F → Stats F D × Bool × F × F × BracketMode × ℕ → Throw F
  throw_of bracket actual total_s judged (log, pending, target, coarse_s, mode, idx) = record {
    target = target;
    actual = actual;
    total_s = total_s;
    coarse_s = coarse_s;
    bracket = bracket;
    result = judge_throw bracket (judged - actual);
    profile_idx = idx % 256;
    mode = mode_number mode;
  }

  session_stats_record-OneMore :
      (now : ℕ) (actual total_s : F) (m0 : Machine F D)
      → let bracket = charge_mode_get_active_bracket m0.settings in
        OneMore now actual total_s m0 (
          session_stats_record now
            (throw_of bracket actual total_s m0.target_charge_weight (facts m0))
            m0.log)
  unfolding session_stats_record
  session_stats_record-OneMore now actual total_s m0 = (refl, refl, refl, refl)

  log_throw-Logged :
      (m0 : Machine F D) (now : ℕ) (current : F) (m m1 : Machine F D)
      → Unlogged m0 m
      → Unlogged m0 m1
      → let bracket = charge_mode_get_active_bracket m0.settings in
        Logged now m0 (
          log_throw now bracket current (judge_throw bracket (m.target_charge_weight - current)) m1)
  unfolding log_throw
  log_throw-Logged m0 now current m m1 h h1 =
      let bracket = charge_mode_get_active_bracket m0.settings in
      let result = judge_throw bracket (m.target_charge_weight - current) in
      let pending = ap (λ f. f.1) h1 in
      let total_s = m1.last_charge_elapsed_seconds in
      if-cases (Logged now m0) m1.throw_pending_record
        (λ to_log.
          let g : F → Stats F D × Bool × F × F × BracketMode × ℕ → Stats F D =
            λ judged f. session_stats_record now (throw_of bracket current total_s judged f) f.0 in
          let written : g m.target_charge_weight (facts m1) ≡ g m0.target_charge_weight (facts m0) =
            ap₂ g (ap (λ f. f.2) h) h1 in
          let more = session_stats_record-OneMore now current total_s m0 in
          let idx = m1.profile_data.current_profile_idx % 256 in
          let landed : Landed F = record {
            result = result;
            bracket = bracket;
            total_s = total_s;
            coarse_stop_predicted = m1.last_coarse_stop_weight;
            error_gr = current - m1.target_charge_weight;
          } in
          let logged : Machine F D = record m1 {
            throw_pending_record = false;
            log = g m.target_charge_weight (facts m1);
          } in
          let kept = learn_post_throw-log idx landed logged in
          let landing = learn_post_throw idx landed logged in
          (
            kept.1,
            inl (
              sym pending ∙ to_log,
              (
                current,
                subst (λ t. OneMore now current t m0 landing.log) (sym kept.2)
                    (subst (OneMore now current total_s m0) (sym (kept.0 ∙ written)) more),
              ),
            ),
          ))
        (λ nothing. (nothing, inr (sym pending ∙ nothing, ap (λ f. f.0) h1)))

  judge_and_log-Logged :
      (m0 : Machine F D) (now : ℕ) (current : F) (m : Machine F D)
      → Unlogged m0 m
      → Logged now m0 (judge_and_log now (charge_mode_get_active_bracket m0.settings) current m)
  unfolding judge_and_log
  judge_and_log-Logged m0 now current m h =
      let bracket = charge_mode_get_active_bracket m0.settings in
      let result = judge_throw bracket (m.target_charge_weight - current) in
      log_throw-Logged m0 now current m (show_result result m) h (show_result-Unlogged result m ∙ h)

  -- By the end of the phase no throw is pending any more. If one was, the log has one record more, at its
  -- head, with the next number, the target, the bulk's time, the mode and the profile of the charge, the
  -- bracket in use, the charge's time as the machine has it at the end, some weight, and the judgement of
  -- that weight; if none was, the log is as it was. Where the phase leaves the charge mode, the pending
  -- throw and the log are as they were, or the same holds as at the end.
  pub charge_mode_wait_for_cup_removal-Logged :
      (s : RemovalScript F) (m : Machine F D)
      → Ends
          (λ m'. Unlogged m m' ⊎ Logged s.log_tick m m')
          (λ _. Logged s.log_tick m)
          (charge_mode_wait_for_cup_removal s m)
  unfolding end_top_up
  charge_mode_wait_for_cup_removal-Logged s m =
      let E : Machine F D → Type 0 = λ m'. Unlogged m m' ⊎ Logged s.log_tick m m' in
      let kept : Kept (Unlogged m) E = record {
        leaving = λ _ h. inl h;
        topping = λ _ _ _ h. h;
        measuring = λ x m' h. measure_lag-Unlogged x m' ∙ h;
      } in
      let closed : Closed (Logged s.log_tick m) E (Logged s.log_tick m) = record {
        leaving = λ _ h. inr h;
        returning = λ _ h. h;
      } in
      removal-Ends (Unlogged m) (Logged s.log_tick m) E (Logged s.log_tick m) kept closed s m
        (judge_and_log-Logged m s.log_tick) refl

  -- The lag that a throw's tail may change is not below 0 and not above 3 seconds behind the change, and
  -- never changes while the prediction that it feeds is on; on any floats whose `<` is irreflexive and
  -- has 0 and 3 in order.
  pub measure_lag-bounds :
      Irreflexive fl
      → lt {F = F} (lit 30 1) (lit 0 0) ≡ false
      → (x : F) (m : Machine F D)
      → let lag = (measure_lag x m).settings.fine_lag_s in
        (lag ≡ m.settings.fine_lag_s)
        ⊎ (Within (lit 0 0) (lit 30 1) lag × (m.settings.predict_enable ≡ false))
  unfolding measure_lag learn_lag track_lag
  measure_lag-bounds irr ordered x m = ground (arith, irr (lit 0 0), irr (lit 30 1), ordered)
