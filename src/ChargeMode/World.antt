-- ===== src/ChargeMode/World.antt =====
-- The state that the charge mode shares with the other parts: its settings and statics, the profiles,
-- the tuners, the log and the commands so far; and what the phases read from outside.
use open_trickler_rp2040_con.Prelude.{
  ℕ, Bool, ◌&&◌, ◌==◌, if◌then◌else◌, Option, List, ◌∷◌, get_elem?,
}
use open_trickler_rp2040_con.Float.{Floats, lit, lt}
use open_trickler_rp2040_con.Profile.{Profile, ProfileData}
use open_trickler_rp2040_con.SessionStats.{Stats}
use open_trickler_rp2040_con.Tuner.State.{Tuner}
use open_trickler_rp2040_con.ChargeMode.State.{ChargeState, ChargeData, Pass}
use open_trickler_rp2040_con.ChargeMode.Motors.{
  Motor, Command, Commands, set_ratio, motor_set_speed,
}

-- The limits in the motors' configurations; a greatest speed goes through get_motor_max_speed as a
-- uint16_t.
pub record MotorLimits (F : Type 0) : Type 0 where
  pub coarse_max_speed : ℕ
  pub coarse_min_speed : F
  pub fine_max_speed : ℕ
  pub fine_min_speed : F

-- `learn_config_t`; the tuner reads its style, time goal and landing sigma.
pub record LearnConfig (F : Type 0) : Type 0 where
  pub learn_config_rev : ℕ
  pub style : ℕ
  pub reserved : ℕ
  pub coarse_target : F
  pub fine_target : F
  pub coarse_speed_ceiling : F
  pub fine_speed_ceiling : F
  pub confirm_target : F
  pub confirm_throws : ℕ
  pub time_goal_s : F
  pub cup_capacity_gr : F
  pub min_success_pct : F
  pub coarse_stop_safety : F
  pub land_sigma : F

pub record Machine (F D : Type 0) : Type 0 where
  pub settings : ChargeData F
  pub target_charge_weight : F
  pub state : ChargeState
  pub over_charge : Bool
  pub under_charge : Bool
  pub motor_limits : MotorLimits F
  pub learn_config : LearnConfig F
  pub gate_enable : Bool
  pub profile_data : ProfileData F
  pub learn_tuner : List (Tuner F)
  pub learn_tuning_suppressed : Bool
  pub log : Stats F D
  pub last_charge_elapsed_seconds : F
  pub last_coarse_elapsed_seconds : F
  pub last_coarse_stop_weight : F
  pub throw_pending_record : Bool
  pub weight_at_stop : F
  pub rate_at_stop : F
  pub last_measured_lag : F
  pub last_dead_time_s : F
  pub commands : Commands F

-- One loop over the scale, as the world answers it: the tick before it, the tick that is read again
-- just before its first pass, the last reading of the scale by then, the memory of its window, its
-- passes, and the tick behind it.
pub record Spell (F : Type 0) : Type 0 where
  pub start : ℕ
  pub began : ℕ
  pub latest : F
  pub memory : List F
  pub passes : List (Pass F)
  pub finish : ℕ

-- Where the index is out of range there is no profile: the code would read beyond its table.
unfoldable pub profile_get_selected : {F : Type 0} → ProfileData F → Option (Profile F)
profile_get_selected d = get_elem? d.profiles d.current_profile_idx

module _ {F D : Type 0} where
  abbrev pub with_state : ChargeState → Machine F D → Machine F D
  with_state st m = record m { state = st }

  abbrev pub tell : Command F → Machine F D → Machine F D
  tell c m = record m { commands = c ∷ m.commands }

module _ {F : Type 0} ⦃fl : Floats F⦄ where
  open fl use {D}

  abbrev pub drive_motor : Motor → F → Machine F D → Machine F D
  drive_motor motor v m = record m { commands = motor_set_speed motor v m.commands }

  abbrev pub move_gate : F → Bool → Machine F D → Machine F D
  move_gate ratio wait m = if m.gate_enable then tell (set_ratio ratio wait) m else m

  unfoldable pub learn_mode_get_land_sigma : LearnConfig F → F
  learn_mode_get_land_sigma c =
      let s = if lt c.land_sigma (lit 10 1) then lit 10 1 else c.land_sigma in
      if lt (lit 40 1) s then lit 40 1 else s

  unfoldable pub learn_mode_get_time_goal : LearnConfig F → F
  learn_mode_get_time_goal c =
      if lt (lit 0 0) c.time_goal_s && lt c.time_goal_s (lit 1200 1) then c.time_goal_s else lit 0 0

  unfoldable pub learn_mode_is_aggressive : LearnConfig F → Bool
  learn_mode_is_aggressive c = c.style == 1
