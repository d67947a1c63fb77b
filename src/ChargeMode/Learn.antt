-- ===== src/ChargeMode/Learn.antt =====
-- The adapter between the charge mode and the tuner: learn_landing_trim and learn_post_throw.
pub mod Bounds
use Prim.Native.Nat.{◌%◌}
use open_trickler_rp2040_con.Prelude.{
  ℕ, Bool, true, false, not, ◌||◌, leb, if◌then◌else◌, Option, none, some, List, get_elem?, set,
}
use open_trickler_rp2040_con.Float.{Floats, lit, of_nat, ◌-◌, ◌*◌, lt}
use open_trickler_rp2040_con.Profile.{Profile, ProfileData}
use open_trickler_rp2040_con.SessionStats.{ThrowResult, pass, under, over}
use open_trickler_rp2040_con.Tuner.State.{
  Params, Env, Obs, Tuner, ThrowResult as TunerResult, pass as tuner_pass, under as tuner_under,
  over as tuner_over,
}
use open_trickler_rp2040_con.Tuner.Window.{tuner_trim}
use open_trickler_rp2040_con.Tuner.Observe.{tuner_observe}
use open_trickler_rp2040_con.ChargeMode.State.{handoff_max_frac, handoff_for_target}
use open_trickler_rp2040_con.ChargeMode.World.{
  Machine, profile_get_selected, learn_mode_get_land_sigma, learn_mode_get_time_goal,
  learn_mode_is_aggressive,
}

-- What a throw reports to the learner.
pub record Landed (F : Type 0) : Type 0 where
  pub result : ThrowResult
  pub bracket : F
  pub total_s : F
  pub coarse_stop_predicted : F
  pub error_gr : F

-- The `?:` on the result.
unfoldable pub tuner_result : ThrowResult → TunerResult
tuner_result pass = tuner_pass
tuner_result under = tuner_under
tuner_result over = tuner_over

-- Nothing is said of an index out of range of either table.
abbrev pub with_both : {A B : Type 0} {M : Type 0} → (A → B → M) → M → Option A → Option B → M
with_both f m none b = m
with_both f m (some a) none = m
with_both f m (some a) (some b) = f a b

module _ {F : Type 0} ⦃fl : Floats F⦄ where
  open fl use {D}

  -- The tuner of the selected profile, where Learn is on, not suppressed, and the index in range.
  abbrev pub learning : Machine F D → Bool
  learning m =
      let idx = m.profile_data.current_profile_idx % 256 in
      if not m.settings.learn_enable
      then false
      else if m.learn_tuning_suppressed
      then false
      else if leb 8 idx
      then false
      else true

  unfoldable pub learn_landing_trim : Machine F D → F
  unfolding tuner_trim
  learn_landing_trim m = elim (get_elem? m.learn_tuner (m.profile_data.current_profile_idx % 256)) [
    | none ↦ lit 0 0
    | some t ↦ if learning m then tuner_trim t else lit 0 0
  ]

  unfoldable pub params_of : Profile F → F → Params F
  params_of p handoff = record {
    fine_max = p.fine_max_flow_speed_rps;
    fine_min = p.fine_min_flow_speed_rps;
    fine_kp = p.fine_kp;
    coarse_max = p.coarse_max_flow_speed_rps;
    coarse_min = p.coarse_min_flow_speed_rps;
    coarse_kp = p.coarse_kp;
    handoff = handoff;
  }

  unfoldable pub env_of : Machine F D → F → Env F
  unfolding learn_mode_get_land_sigma learn_mode_get_time_goal learn_mode_is_aggressive
  env_of m bracket =
      let aggressive = learn_mode_is_aggressive m.learn_config in
      record {
        target = m.target_charge_weight;
        bracket = bracket;
        land_sigma = learn_mode_get_land_sigma m.learn_config;
        coarse_motor_cap = of_nat m.motor_limits.coarse_max_speed;
        fine_motor_cap = of_nat m.motor_limits.fine_max_speed;
        coarse_motor_min = m.motor_limits.coarse_min_speed;
        coarse_sd_floor_gr =
            (if aggressive then lit 20 1 else lit 30 1) * m.settings.coarse_tail_sd_gr;
        handoff_cap_frac = handoff_max_frac;
        time_goal_s = learn_mode_get_time_goal m.learn_config;
        handoff_floor_gr = if aggressive then lit 15 2 else lit 30 2;
        aggressive = aggressive;
      }

  unfoldable pub obs_of : Machine F D → Landed F → Obs F
  unfolding tuner_result handoff_for_target
  obs_of m x =
      let target = m.target_charge_weight in
      let handoff_target = target - handoff_for_target m.settings target in
      record {
        result = tuner_result x.result;
        total_s = x.total_s;
        error_gr = x.error_gr;
        coarse_ran_long =
            lt (lit 25 2 * m.settings.coarse_stop_threshold)
              (x.coarse_stop_predicted - handoff_target);
      }

  unfoldable pub with_params : Params F → Profile F → Profile F
  with_params q p = record p {
    fine_max_flow_speed_rps = q.fine_max;
    fine_min_flow_speed_rps = q.fine_min;
    fine_kp = q.fine_kp;
    coarse_max_flow_speed_rps = q.coarse_max;
    coarse_min_flow_speed_rps = q.coarse_min;
    coarse_kp = q.coarse_kp;
  }

  -- The part behind the guards.
  unfoldable pub tune : Landed F → Tuner F → Profile F → ℕ → Machine F D → Machine F D
  unfolding params_of env_of obs_of tuner_observe with_params
  tune x tuner profile profile_idx m =
      let (tuner', q) =
        tuner_observe tuner (env_of m x.bracket) (obs_of m x)
          (params_of profile m.settings.coarse_stop_threshold) in
      let table = m.profile_data in
      record m {
        learn_tuner = set m.learn_tuner profile_idx tuner';
        profile_data = record table {
          profiles = set table.profiles table.current_profile_idx (with_params q profile);
        };
        settings = record m.settings { coarse_stop_threshold = q.handoff };
      }

  -- `profile_idx` is a uint8_t.
  unfoldable pub learn_post_throw : ℕ → Landed F → Machine F D → Machine F D
  unfolding tune profile_get_selected
  learn_post_throw profile_idx x m =
      if not m.settings.learn_enable
      then m
      else if m.learn_tuning_suppressed
      then m
      else if leb 8 profile_idx
      then m
      else with_both (λ tuner profile. tune x tuner profile profile_idx m) m
          (get_elem? m.learn_tuner profile_idx) (profile_get_selected m.profile_data)
