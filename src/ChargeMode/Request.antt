-- ===== src/ChargeMode/Request.antt =====
-- The settings of the charge mode: what is loaded, what a request changes, and what the mode's requests
-- do to its state. Loading and saving are calls of the configuration store.
pub mod Steps
use Prim.Native.Nat.{◌%◌}
use open_trickler_rp2040_con.Prelude.{
  ℕ, Bool, true, false, not, ◌&&◌, ◌==◌, if◌then◌else◌, List, [], ◌∷◌,
}
use open_trickler_rp2040_con.Float.{Floats}
use open_trickler_rp2040_con.ChargeMode.State.{
  BracketMode, normal, match_mode, ChargeData, clamp_steps,
}

-- The C library's readers and those of common.c; ints by their 32-bit pattern.
pub record Readers (F : Type 0) : Type 0 where
  pub atoi : List ℕ → ℕ
  pub strtol : List ℕ → ℕ
  pub strtof : List ℕ → F
  pub string_to_boolean : List ℕ → Bool
  pub hex_string_to_decimal : List ℕ → ℕ

-- `eeprom_charge_mode_data_t`, with the fields that the charge does not read.
pub record Config (F : Type 0) : Type 0 where
  pub charge : ChargeData F
  pub fine_stop_threshold : F
  pub decimal_places : ℕ
  pub normal_charge_colour : ℕ
  pub under_charge_colour : ℕ
  pub over_charge_colour : ℕ
  pub not_ready_colour : ℕ
  pub session_backlight_colour : ℕ

-- The keys that the handler knows.
pub data Key : Type 0 where
  c1 c2 c3 c4 c5 c6 c7 c8 c9 c10 c11 c12 c13 c14 c15 c16 c17 c18 c19 c20 c21 c22 c23 c24 c25 c26 ee
        other :
      Key

pub record Param : Type 0 where
  pub key : Key
  pub value : List ℕ

abbrev pub data_with : {F : Type 0} → Config F → (ChargeData F → ChargeData F) → Config F
data_with c f = record c { charge = f c.charge }

-- What the sanity check makes of the byte that was loaded.
unfoldable pub mode_of_byte : ℕ → BracketMode
mode_of_byte b = if b == 1 then match_mode else normal

module _ {F : Type 0} where
  -- charge_mode_config_init behind a successful load, whose byte for the bracket mode is `mode`.
  unfoldable pub charge_mode_config_init : ℕ → Config F → Config F
  unfolding clamp_steps mode_of_byte
  charge_mode_config_init mode c = data_with c (λ d. record d {
    normal_bracket_steps = clamp_steps d.normal_bracket_steps;
    match_bracket_steps = clamp_steps d.match_bracket_steps;
    bracket_mode = mode_of_byte mode;
  })

  module _ (r : Readers F) where
    -- The chain of tests for one parameter, with `save_to_eeprom`.
    unfoldable pub edit : Key → List ℕ → Config F → Bool → Config F × Bool
    unfolding clamp_steps
    edit c5 v c save = (data_with c (λ d. record d { coarse_stop_threshold = r.strtof v }), save)
    edit c6 v c save = (record c { fine_stop_threshold = r.strtof v }, save)
    edit c7 v c save = (data_with c (λ d. record d { set_point_sd_margin = r.strtof v }), save)
    edit c8 v c save = (data_with c (λ d. record d { set_point_mean_margin = r.strtof v }), save)
    edit c9 v c save = (record c { decimal_places = r.atoi v }, save)
    edit c10 v c save =
        (data_with c (λ d. record d { precharge_enable = r.string_to_boolean v }), save)
    edit c11 v c save = (data_with c (λ d. record d { precharge_time_ms = r.strtol v }), save)
    edit c12 v c save = (data_with c (λ d. record d { precharge_speed_rps = r.strtof v }), save)
    edit c13 v c save = (data_with c (λ d. record d { coarse_stop_gate_ratio = r.strtof v }), save)
    edit c14 v c save =
        (data_with c (λ d. record d { coarse_stop_backoff_enable = r.string_to_boolean v }), save)
    edit c15 v c save =
        (data_with c (λ d. record d { coarse_stop_backoff_turns = r.strtof v }), save)
    edit c16 v c save =
        (data_with c (λ d. record d { coarse_stop_backoff_speed_rps = r.strtof v }), save)
    edit c17 v c save = (record c { session_backlight_colour = r.hex_string_to_decimal v }, save)
    edit c18 v c save = (
      data_with c (λ d. record d { bracket_mode = if r.atoi v == 1 then match_mode else normal }),
      save,
    )
    edit c19 v c save =
        (data_with c (λ d. record d { normal_bracket_steps = clamp_steps (r.atoi v % 256) }), save)
    edit c20 v c save =
        (data_with c (λ d. record d { match_bracket_steps = clamp_steps (r.atoi v % 256) }), save)
    edit c21 v c save = (data_with c (λ d. record d { learn_enable = r.string_to_boolean v }), save)
    edit c22 v c save =
        (data_with c (λ d. record d { predict_enable = r.string_to_boolean v }), save)
    edit c23 v c save = (data_with c (λ d. record d { coarse_lag_s = r.strtof v }), save)
    edit c24 v c save =
        (data_with c (λ d. record d { auto_lag_enable = r.string_to_boolean v }), save)
    edit c25 v c save = (data_with c (λ d. record d { fine_lag_s = r.strtof v }), save)
    edit c26 v c save = (data_with c (λ d. record d { coarse_tail_sd_gr = r.strtof v }), save)
    edit c1 v c save = (record c { normal_charge_colour = r.hex_string_to_decimal v }, save)
    edit c2 v c save = (record c { under_charge_colour = r.hex_string_to_decimal v }, save)
    edit c3 v c save = (record c { over_charge_colour = r.hex_string_to_decimal v }, save)
    edit c4 v c save = (record c { not_ready_colour = r.hex_string_to_decimal v }, save)
    edit ee v c save = (c, r.string_to_boolean v)
    edit other v c save = (c, save)

    unfoldable pub edit_all : List Param → Config F → Bool → Config F × Bool
    unfolding edit
    edit_all [] c save = (c, save)
    edit_all (p ∷ ps) c save = let (c', save') = edit p.key p.value c save in edit_all ps c' save'

    -- The settings behind the request, and whether they are saved.
    unfoldable pub http_rest_charge_mode_config : List Param → Config F → Config F × Bool
    unfolding edit_all
    http_rest_charge_mode_config params c = edit_all params c false
