-- ===== src/CleanupMode/Tests.antt =====
-- Two turns of the encoder, a request for a speed, and the button.
use open_trickler_rp2040_con.Prelude.{◌≡◌, refl, false, true, if◌then◌else◌, List, [], ◌∷◌, get_or}
use open_trickler_rp2040_con.Prelude.Int.{ℤ, pos}
use open_trickler_rp2040_con.Float.{fixed, lit}
use open_trickler_rp2040_con.Profile.{Readers}
use open_trickler_rp2040_con.ChargeMode.Motors.{coarse_speed, fine_speed}
use open_trickler_rp2040_con.CleanupMode.{
  rotate_cw, rst_pressed, s1, Input, event, request, Cleanup, cleanup_mode_menu,
}
use open_trickler_rp2040_con.CleanupMode.Speed.{told, cleanup_mode_menu-InStep}

-- One digit.
abbrev readers : Readers ℤ
readers = record {
  atoi = λ text. get_or text 0 0;
  strtol = λ text. get_or text 0 0;
  strtof = λ text. pos (get_or text 0 0);
  string_to_boolean = λ text. true;
}

abbrev idle : Cleanup ℤ
idle = record {
  cleanup_mode_state = 0;
  trickler_speed = lit 0 0;
  gate_enabled = true;
  commands = [];
  sent = [];
  exit_to_cleanup = false;
}

abbrev inputs : List Input
inputs =
    event rotate_cw
    ∷ event rotate_cw
    ∷ request (record { key = s1; value = 3 ∷ [] })
    ∷ event rst_pressed
    ∷ []

cleanup_mode_menu-InStep_example :
    let (quit, c) = cleanup_mode_menu readers inputs idle in
    let v = if quit then lit 0 0 else told c.trickler_speed in
    (coarse_speed c.commands ≡ v) × (fine_speed c.commands ≡ v)
cleanup_mode_menu-InStep_example = cleanup_mode_menu-InStep readers inputs idle refl refl
