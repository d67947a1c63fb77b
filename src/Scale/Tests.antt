-- ===== src/Scale/Tests.antt =====
-- The framing theorems at concrete bytes, with a number reader for small decimals.
use Prim.Native.Nat.{◌+◌, ◌*◌, ◌-◌}
use open_trickler_rp2040_con.Prelude.{
  ℕ, ◌≡◌, refl, Bool, true, false, ◌&&◌, leb, ◌==◌, if◌then◌else◌, Option, none, some, List, [],
  ◌∷◌, ◌++◌, replicate, arith,
}
use open_trickler_rp2040_con.Prelude.Int.{ℤ, pos}
use open_trickler_rp2040_con.Float.{fixed}
use open_trickler_rp2040_con.Scale.Port.{Text, Scale}
use open_trickler_rp2040_con.Scale.Frame.{Listener, newline, receive, feed}
use open_trickler_rp2040_con.Scale.Drivers.{and_decode, and_receive}
use open_trickler_rp2040_con.Scale.Line.{LineBuffer, number_start}
use open_trickler_rp2040_con.Scale.Framing.{outcome, frame_after_newline}
use open_trickler_rp2040_con.Scale.Config.{ScaleConfig, and_fxi, s1, http_rest_scale_config, InStep}

-- Whole tenths: two digits around a point, `+1.5` without its sign.
tenths : List ℕ → Option ℤ
tenths (a ∷ point ∷ b ∷ cs) =
    if leb 0x30 a && (leb a 0x39 && (point == 0x2e))
    then some (pos ((a - 0x30) * 10000 + (b - 0x30) * 1000))
    else none
tenths (a ∷ []) = none
tenths (a ∷ b ∷ []) = none
tenths [] = none

abbrev text : Text ℤ
text = record { strtof = tenths; nanf = λ bytes. pos 0 }

abbrev idle : Scale ℤ
idle = record { current_scale_measurement = pos 0; scale_measurement_ready = some false }

abbrev listener : ℕ → Listener ℤ
listener size = record { frame = replicate size 0; byte_idx = 0; scale = idle }

abbrev line_buffer : LineBuffer ℤ
line_buffer = record { buffer = replicate 32 0; index = 0; scale = idle }

-- "ST,1.5     gr \r"
abbrev and_frame : List ℕ
and_frame =
    0x53 ∷ 0x54 ∷ 0x2c ∷ 0x31 ∷ 0x2e ∷ 0x35 ∷ 0x20 ∷ 0x20 ∷ 0x20 ∷ 0x20 ∷ 0x20 ∷ 0x67 ∷ 0x72 ∷ 0x20
    ∷ 0x20 ∷ 13 ∷ []

accept_all : List ℕ → Bool
accept_all frame = true

and_posts :
    let l = feed (and_receive text) (and_frame ++ (newline ∷ [])) (listener 17) in
    l.scale ≡ record { current_scale_measurement = pos 15000; scale_measurement_ready = some true }
unfolding and_receive tenths
and_posts = refl

-- The generic driver does not stop at a decimal point: the number of ".5" starts at the 5.
point_skipped : number_start (0x2e ∷ 0x35 ∷ 10 ∷ []) ≡ 0x35 ∷ 10 ∷ []
unfolding number_start
point_skipped = refl

frame_after_newline_example :
    let step = receive 17 accept_all (and_decode text) in
    let l0 = feed step ((0x30 ∷ []) ++ (newline ∷ [])) (listener 17) in
    let frame = and_frame ++ (newline ∷ []) in
    let l1 = feed step frame l0 in
    (l1.byte_idx ≡ 0)
    × (l1.scale ≡ outcome 17 accept_all (and_decode text) (omega arith) frame l0.scale)
frame_after_newline_example =
    frame_after_newline 17 accept_all (and_decode text) (omega arith) (0x30 ∷ []) and_frame newline
      (listener 17) (record { buffer = refl; inside = omega arith }) (ground arith) refl

abbrev jm_body : List ℕ
jm_body =
    0x20 ∷ 0x53 ∷ 0x2d ∷ 0x31 ∷ 0x2e ∷ 0x35 ∷ 0x20 ∷ 0x20 ∷ 0x20 ∷ 0x20 ∷ 0x20 ∷ 0x20 ∷ 0x20 ∷ 0x67
    ∷ 0x72 ∷ 0x20 ∷ 13 ∷ []

abbrev weight_line : List ℕ
weight_line = 0x2b ∷ 0x20 ∷ 0x31 ∷ 0x2e ∷ 0x35 ∷ []

abbrev settings : ScaleConfig
settings = record {
  scale_driver = 0;
  scale_baudrate = 2;
  scale_uart_format = 0;
  scale_handle = and_fxi;
  uart = record { baudrate = 19200; data_bits = 8 };
}

settings-InStep : InStep settings
unfolding http_rest_scale_config
settings-InStep = record {
  handle = refl;
  baudrate = refl;
  format_8 = λ e. refl;
  format_7 = λ e. absurd (omega arith);
}

-- An index that is no baud rate sets the UART to 0 baud.
zero_baud : (http_rest_scale_config (s1 3 ∷ []) settings).0.uart.baudrate ≡ 0
unfolding http_rest_scale_config
zero_baud = refl
