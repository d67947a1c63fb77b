-- ===== src/ChargeMode/State.antt =====
-- The settings of charge_mode.h, the input of the loops, and the bracket helpers.
use Prim.Native.Nat.{◌+◌ as nat_add, ◌-◌ as nat_sub, ◌%◌}
use open_trickler_rp2040_con.Prelude.{ℕ, Bool, ltb, if◌then◌else◌, Option}
use open_trickler_rp2040_con.Float.{Floats, lit, of_nat, ◌*◌, ◌/◌, lt}

pub data BracketMode : Type 0 where
  normal match_mode : BracketMode

pub data ChargeState : Type 0 where
  exit wait_for_zero wait_for_complete wait_for_cup_removal wait_for_cup_return : ChargeState

-- The part of `eeprom_charge_mode_data_t` that the charge reads; colours are only passed on.
pub record ChargeData (F : Type 0) : Type 0 where
  pub coarse_stop_threshold : F
  pub set_point_sd_margin : F
  pub set_point_mean_margin : F
  pub coarse_stop_gate_ratio : F
  pub coarse_stop_backoff_enable : Bool
  pub coarse_stop_backoff_turns : F
  pub coarse_stop_backoff_speed_rps : F
  pub precharge_enable : Bool
  pub precharge_time_ms : ℕ
  pub precharge_speed_rps : F
  pub bracket_mode : BracketMode
  pub normal_bracket_steps : ℕ
  pub match_bracket_steps : ℕ
  pub learn_enable : Bool
  pub predict_enable : Bool
  pub coarse_lag_s : F
  pub fine_lag_s : F
  pub auto_lag_enable : Bool
  pub coarse_tail_sd_gr : F

-- What button_wait_for_input(false) returns.
pub data Button : Type 0 where
  no_event rst_pressed encoder_pressed rotated : Button

-- One pass of a loop, as the world answers it: the button, what
-- scale_block_wait_for_next_measurement gives (`none` is its timeout), and the ticks (a uint32_t of
-- milliseconds) that the pass reads at its head, after the measurement, and after that.
pub record Pass (F : Type 0) : Type 0 where
  pub button : Button
  pub measurement : Option F
  pub head : ℕ
  pub now : ℕ
  pub after : ℕ

-- `a - b` on TickType_t.
abbrev pub ticks_since : ℕ → ℕ → ℕ
ticks_since a b = nat_sub (nat_add a 4294967296) b % 4294967296

abbrev pub tick_add : ℕ → ℕ → ℕ
tick_add a b = nat_add a b % 4294967296

abbrev pub charge_scale_timeout_ms : ℕ
charge_scale_timeout_ms = 2000

unfoldable pub clamp_steps : ℕ → ℕ
clamp_steps steps = if ltb steps 1 then 1 else if ltb 10 steps then 10 else steps

module _ {F : Type 0} ⦃fl : Floats F⦄ where
  -- Ticks in milliseconds, in seconds.
  abbrev pub seconds : ℕ → F
  seconds ticks = of_nat ticks / lit 10000 1

  unfoldable pub charge_mode_get_active_bracket : ChargeData F → F
  unfolding clamp_steps
  charge_mode_get_active_bracket c = elim c.bracket_mode [
    | match_mode ↦ of_nat (clamp_steps c.match_bracket_steps) * lit 2 2
    | normal ↦ of_nat (clamp_steps c.normal_bracket_steps) * lit 2 2
  ]

  unfoldable pub charge_mode_toggle_bracket_mode : ChargeData F → ChargeData F
  charge_mode_toggle_bracket_mode c = elim c.bracket_mode [
    | match_mode ↦ record c { bracket_mode = normal }
    | normal ↦ record c { bracket_mode = match_mode }
  ]

  abbrev pub handoff_max_frac : F
  handoff_max_frac = lit 50 2

  unfoldable pub handoff_for_target : ChargeData F → F → F
  handoff_for_target c target =
      let cap = handoff_max_frac * target in
      let handoff =
        if lt (lit 0 0) cap
        then (if lt cap c.coarse_stop_threshold then cap else c.coarse_stop_threshold)
        else c.coarse_stop_threshold in
      if lt handoff (lit 0 0) then lit 0 0 else handoff
