-- ===== src/LearnMode/Confirm.antt =====
-- confirm_throws: real charges with the fitted profile, and the rounds of learn_mode_menu around them.
use Prim.Native.Nat.{◌+◌ as nat_add, ◌%◌}
use open_trickler_rp2040_con.Prelude.{
  ℕ, zero, suc, Bool, true, false, ltb, ◌==◌, if◌then◌else◌, List, [], ◌∷◌,
}
use open_trickler_rp2040_con.Float.{Floats, lit, of_nat, neg, ◌+◌, ◌-◌, ◌*◌, ◌/◌, lt, le}
use open_trickler_rp2040_con.SessionStats.{
  ThrowResult, Throw, pass, under, over, session_stats_record,
}
use open_trickler_rp2040_con.ChargeMode.State.{
  ChargeState, exit, wait_for_zero, wait_for_complete, wait_for_cup_removal, wait_for_cup_return,
  charge_mode_get_active_bracket,
}
use open_trickler_rp2040_con.ChargeMode.Motors.{
  Colour, normal_charge, under_charge, over_charge, led, delay,
}
use open_trickler_rp2040_con.ChargeMode.World.{Machine, Spell, with_state, tell}
use open_trickler_rp2040_con.ChargeMode.Phase.{Outcome, waiting, left, done, modify, ◌>>=◌}
use open_trickler_rp2040_con.ChargeMode.Complete.{charge_mode_wait_for_complete}
use open_trickler_rp2040_con.ChargeMode.Removal.{mode_number}
use open_trickler_rp2040_con.LearnMode.State.{LearnState, Learner, Learning, with_machine}
use open_trickler_rp2040_con.LearnMode.Cup.{
  ZeroScript, CupScript, settle, zero_scale, ensure_cup_room,
}
use open_trickler_rp2040_con.LearnMode.Proposal.{back_off_profile, learn_mode_apply_to_profile}

-- What the world answers to one confirmation throw.
pub record ConfirmScript (F : Type 0) : Type 0 where
  pub cup : CupScript F
  pub charge : Spell F
  pub settling : Spell F
  pub log_tick : ℕ
  pub zero : ZeroScript F

abbrev pub is_exit : ChargeState → Bool
is_exit exit = true
is_exit wait_for_zero = false
is_exit wait_for_complete = false
is_exit wait_for_cup_removal = false
is_exit wait_for_cup_return = false

abbrev pub colour_of : ThrowResult → Colour
colour_of pass = normal_charge
colour_of over = over_charge
colour_of under = under_charge

abbrev pub passes : ThrowResult → ℕ
passes pass = 1
passes over = 0
passes under = 0

abbrev pub max_confirm_rounds : ℕ
max_confirm_rounds = 3

-- At most twenty throws.
unfoldable pub confirm_count : ℕ → ℕ
confirm_count n = if ltb 20 n then 20 else n

module _ {F D : Type 0} where
  -- The charge, whose button shows in the state that it leaves.
  unfoldable pub end_charge : Learner F D → Outcome (Machine F D) Unit → Outcome (Learner F D) Unit
  end_charge l waiting = waiting
  end_charge l (left m) = left (record l { machine = m; state = LearnState.aborted })
  end_charge l (done u m) =
      if is_exit m.state
      then left (record l { machine = m; state = LearnState.aborted })
      else done tt (record l { machine = m })

module _ {F : Type 0} ⦃fl : Floats F⦄ where
  open fl use {D, double, widen, narrow}

  unfoldable pub judge_confirm : F → F → ThrowResult
  judge_confirm bracket err =
      if lt (bracket + lit 5 4) err
      then over
      else if lt err (neg (bracket + lit 5 4))
      then under
      else pass

  -- The settled throw is judged, counted and logged, and the lamp shows it.
  unfoldable pub record_confirm : ℕ → F → F → Learner F D → Learner F D
  unfolding judge_confirm session_stats_record
  record_confirm now bracket settled l =
      let c = l.machine.learn_config in
      let result = judge_confirm bracket (settled - c.confirm_target) in
      let m = l.machine in
      let throw : Throw F = record {
        target = c.confirm_target;
        actual = settled;
        total_s = m.last_charge_elapsed_seconds;
        coarse_s = lit 0 0;
        bracket = bracket;
        result = result;
        profile_idx = m.profile_data.current_profile_idx % 256;
        mode = mode_number m.settings.bracket_mode;
      } in
      record l {
        cup_load_gr = l.cup_load_gr + settled;
        result = record l.result {
          confirm_total = nat_add l.result.confirm_total 1;
          confirm_pass = nat_add l.result.confirm_pass (passes result);
        };
        machine =
            tell (led (colour_of result)) (record m { log = session_stats_record now throw m.log });
      }

  unfoldable pub run_charge : Spell F → Learning F D Unit
  unfolding charge_mode_wait_for_complete end_charge
  run_charge s l =
      end_charge l (charge_mode_wait_for_complete s (with_state wait_for_complete l.machine))

  -- Throw `i`, with the sum of the times behind it.
  unfoldable pub confirm_throw : F → ℕ → D → ConfirmScript F → Learning F D D
  unfolding ensure_cup_room run_charge settle record_confirm zero_scale
  confirm_throw bracket i sum_time s l =
      let throw : Learning F D D = do
        _ ← modify (λ l. record l { throw_idx = i })
        _ ← ensure_cup_room s.cup (l.machine.learn_config.confirm_target + lit 10 1)
        _ ← run_charge s.charge
        settled ← settle s.settling
        _ ← modify (record_confirm s.log_tick bracket settled)
        _ ← zero_scale s.zero
        (λ l. done (double.add sum_time (widen l.machine.last_charge_elapsed_seconds)) l)
      in throw l

  unfoldable pub confirm_loop : F → ℕ → ℕ → List (ConfirmScript F) → D → Learning F D D
  unfolding confirm_throw
  confirm_loop bracket zero i scripts sum_time l = done sum_time l
  confirm_loop bracket (suc n) i [] sum_time l = waiting
  confirm_loop bracket (suc n) i (s ∷ scripts) sum_time l =
      let throws : Learning F D D = do
        sum' ← confirm_throw bracket i sum_time s
        confirm_loop bracket n (nat_add i 1) scripts sum'
      in throws l

  abbrev pub start_confirm : Learner F D → Learner F D
  start_confirm l = record l {
    machine = record l.machine { target_charge_weight = l.machine.learn_config.confirm_target };
    result = record l.result { confirm_total = 0; confirm_pass = 0 };
  }

  abbrev pub finish_confirm : D → Learner F D → Learner F D
  finish_confirm sum_time l = record l {
    result = record l.result {
      confirm_avg_time =
          if ltb 0 l.result.confirm_total
          then narrow (double.div sum_time (double.of_nat l.result.confirm_total))
          else lit 0 0;
    };
  }

  unfoldable pub confirm_throws : List (ConfirmScript F) → Learning F D Unit
  unfolding charge_mode_get_active_bracket confirm_count confirm_loop
  confirm_throws scripts l =
      let n = l.machine.learn_config.confirm_throws in
      let bracket = charge_mode_get_active_bracket l.machine.settings in
      let throws : Learning F D Unit = do
        _ ← modify start_confirm
        sum_time ← confirm_loop bracket (confirm_count n) 0 scripts (double.lit 0 0)
        modify (finish_confirm sum_time)
      in if n == 0 then done tt l else throws l

  -- Whether a round made the target rate.
  unfoldable pub met : Learner F D → Bool
  met l =
      let r = l.result in
      let rate = lit 1000 1 * of_nat r.confirm_pass / of_nat r.confirm_total in
      if l.machine.learn_config.confirm_throws == 0
      then true
      else le l.machine.learn_config.min_success_pct (rate + lit 1 2)

  abbrev pub confirmed : Learner F D → Learner F D
  confirmed l = record l { result = record l.result { confirm_met = true } }

  -- Behind a round that missed: the profile backs off, unless this was the last round.
  unfoldable pub back_off : Learner F D → Learner F D
  unfolding back_off_profile learn_mode_apply_to_profile
  back_off l =
      if ltb l.result.confirm_rounds max_confirm_rounds
      then with_machine (tell (delay 800)) (learn_mode_apply_to_profile (back_off_profile l)).0
      else l

  -- The loop over the rounds, `n` of them left.
  unfoldable pub confirm_rounds : ℕ → List (List (ConfirmScript F)) → Learning F D Unit
  unfolding confirm_throws met back_off
  confirm_rounds zero rounds l = done tt l
  confirm_rounds (suc n) [] l = waiting
  confirm_rounds (suc n) (scripts ∷ rounds) l =
      let again : Learning F D Unit = confirm_rounds n rounds in
      let round : Learning F D Unit = do
        _ ← modify (λ l. record l {
          result = record l.result { confirm_rounds = nat_add l.result.confirm_rounds 1 };
        })
        _ ← confirm_throws scripts
        (λ l. if met l then done tt (confirmed l) else again (back_off l))
      in round l
