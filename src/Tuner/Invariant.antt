-- ===== src/Tuner/Invariant.antt =====
-- What holds of `tuner_t` between two throws: array sizes and indices, counters and arms.
pub mod Probes
pub mod Throw
use Prim.Native.Nat.{◌%◌, ◌^◌, ◌+◌ as nat_add, ◌-◌}
use open_trickler_rp2040_con.Prelude.{
  ℕ, zero, suc, ◌≤◌, ◌<◌, ◌≡◌, refl, Bool, true, not, length, length-set, get_or, arith, ◌⊎◌, inl,
  inr,
}
use open_trickler_rp2040_con.Prelude.Int.{pos, neg}
use open_trickler_rp2040_con.Float.{Floats, lit, ◌*◌, fminf, le}
use open_trickler_rp2040_con.Tuner.State.{
  Params, Env, Obs, Arm, Tuner, Mode, measuring, probing, converged, tuner_init,
}
use open_trickler_rp2040_con.Tuner.Arm.{arm_add, Policy, policy_for}
use open_trickler_rp2040_con.Tuner.Knob.{anchor_to}
use open_trickler_rp2040_con.Tuner.Window.{tuner_margin_sigma}
use open_trickler_rp2040_con.Tuner.Probe.{
  Verdict-cases, Verdict, keep, revert, turn_round, launch, probe_loop, note_start, start_probe,
  probe_verdict, enter_monitor, monitor_if_done, reopen_search, accept_trial, reject_trial,
  verdict_of, conclude, finish_probe,
}
use open_trickler_rp2040_con.Tuner.Observe.{
  admit_edit, merge_edit, record_throw, landing_law, nudge_for_over, add_to_base, try_probe,
  on_measuring, is_pass, on_probing, on_converged, drift_check, dispatch, settle, tuner_observe,
}

-- An arm never holds more than 40 throws, and its misses are among them.
pub record IsArm {F : Type 0} (a : Arm F) : Type 0 where
  pub n_le : a.n ≤ 40
  pub misses_le : a.misses ≤ a.n

pub record IsValid {F : Type 0} (t : Tuner F) : Type 0 where
  pub err_length : length t.err ≡ 20
  pub err_count_le : t.err_count ≤ 20
  pub err_next_lt : t.err_next < 20
  pub dir_length : length t.dir ≡ 4
  pub step_length : length t.step ≡ 4
  pub done_length : length t.done ≡ 4
  pub knob_lt : t.knob < 4
  pub wait_le : t.wait ≤ 4
  pub land_tick_lt : t.land_tick < 6
  pub miss_bits_lt : t.miss_bits < 2 ^ 32
  pub start_misses_le : t.start_misses ≤ 40
  pub base_arm : IsArm t.base
  pub trial_arm : IsArm t.trial

module _ {F : Type 0} ⦃fl : Floats F⦄ where
  -- The zeroed tuner is valid.
  pub tuner_init-IsValid : IsValid (tuner_init {F = F})
  unfolding tuner_init
  tuner_init-IsValid = ground arith

  pub arm_add-IsArm : (a : Arm F) (v e : F) (miss : Bool) → IsArm a → IsArm (arm_add a v e miss)
  unfolding arm_add
  arm_add-IsArm a v e miss h = ground arith
