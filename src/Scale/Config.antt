-- ===== src/Scale/Config.antt =====
-- The settings of scale.c: the driver, the baud rate and the UART's format, and the REST handler that
-- sets them.
use open_trickler_rp2040_con.Prelude.{
  ℕ, ◌≡◌, refl, Bool, false, ◌==◌, if◌then◌else◌, List, [], ◌∷◌, arith,
}

pub data Handle : Type 0 where
  and_fxi steinberg gng ussolid jm_science creedmoor radwag_ps_r2 sartorius generic_drv simulated :
      Handle

-- What uart_set_baudrate and uart_set_format last set. One stop bit and no parity are the only ones used.
pub record Uart : Type 0 where
  pub baudrate : ℕ
  pub data_bits : ℕ

-- The persistent settings are the enumerations' numbers, any of which atoi may give.
pub record ScaleConfig : Type 0 where
  pub scale_driver : ℕ
  pub scale_baudrate : ℕ
  pub scale_uart_format : ℕ
  pub scale_handle : Handle
  pub uart : Uart

-- The `switch` of set_scale_driver.
unfoldable pub handle_of : ℕ → Handle
handle_of scale_driver =
    if scale_driver == 0
    then and_fxi
    else if scale_driver == 1
    then steinberg
    else if scale_driver == 2
    then gng
    else if scale_driver == 3
    then ussolid
    else if scale_driver == 4
    then jm_science
    else if scale_driver == 5
    then creedmoor
    else if scale_driver == 6
    then radwag_ps_r2
    else if scale_driver == 7
    then sartorius
    else if scale_driver == 8
    then generic_drv
    else if scale_driver == 9
    then simulated
    else and_fxi

unfoldable pub set_scale_driver : ℕ → ScaleConfig → ScaleConfig
unfolding handle_of
set_scale_driver scale_driver c = record c {
  scale_driver = scale_driver;
  scale_handle = handle_of scale_driver;
}

-- The format's data bits: an unknown format leaves the UART as it is.
unfoldable pub data_bits_of : ℕ → ℕ → ℕ
data_bits_of format now = if format == 0 then 8 else if format == 1 then 7 else now

unfoldable pub set_scale_uart_format : ℕ → ScaleConfig → ScaleConfig
unfolding data_bits_of
set_scale_uart_format format c = record c {
  scale_uart_format = format;
  uart = record { baudrate = c.uart.baudrate; data_bits = data_bits_of format c.uart.data_bits };
}

unfoldable pub get_scale_baudrate : ℕ → ℕ
get_scale_baudrate scale_baudrate =
    if scale_baudrate == 0
    then 4800
    else if scale_baudrate == 1
    then 9600
    else if scale_baudrate == 2
    then 19200
    else 0

unfoldable pub set_scale_baudrate : ℕ → ScaleConfig → ScaleConfig
unfolding get_scale_baudrate
set_scale_baudrate baudrate c = record c {
  scale_baudrate = baudrate;
  uart = record { baudrate = get_scale_baudrate baudrate; data_bits = c.uart.data_bits };
}

-- A parameter of the request, as strcmp, atoi and string_to_boolean read it.
pub data Param : Type 0 where
  s0 s1 s2 : ℕ → Param
  ee : Bool → Param
  other : Param

-- One pass of the loop over the parameters: the settings and `save_to_eeprom`.
unfoldable pub apply_param : Param → ScaleConfig × Bool → ScaleConfig × Bool
unfolding set_scale_driver set_scale_baudrate set_scale_uart_format
apply_param (s0 n) (c, save) = (set_scale_driver n c, save)
apply_param (s1 n) (c, save) = (set_scale_baudrate n c, save)
apply_param (s2 n) (c, save) = (set_scale_uart_format n c, save)
apply_param (ee b) (c, save) = (c, b)
apply_param other (c, save) = (c, save)

abbrev pub apply_params : List Param → ScaleConfig × Bool → ScaleConfig × Bool
apply_params [] r = r
apply_params (p ∷ ps) r = apply_params ps (apply_param p r)

-- The settings after the request, and whether scale_config_save runs.
unfoldable pub http_rest_scale_config : List Param → ScaleConfig → ScaleConfig × Bool
unfolding apply_param
http_rest_scale_config params c = apply_params params (c, false)

-- What runs is what is stored: the driver's handle, the UART's baud rate, and its data bits where the
-- format is one of the two.
pub record InStep (c : ScaleConfig) : Type 0 where
  pub handle : c.scale_handle ≡ handle_of c.scale_driver
  pub baudrate : c.uart.baudrate ≡ get_scale_baudrate c.scale_baudrate
  pub format_8 : c.scale_uart_format ≡ 0 → c.uart.data_bits ≡ 8
  pub format_7 : c.scale_uart_format ≡ 1 → c.uart.data_bits ≡ 7

apply_param-InStep :
    (p : Param) (c : ScaleConfig) (save : Bool) → InStep c → InStep ((apply_param p (c, save)).0)
unfolding apply_param
apply_param-InStep (s0 n) c save v = record {
  handle = refl;
  baudrate = v.baudrate;
  format_8 = v.format_8;
  format_7 = v.format_7;
}
apply_param-InStep (s1 n) c save v = record {
  handle = v.handle;
  baudrate = refl;
  format_8 = v.format_8;
  format_7 = v.format_7;
}
apply_param-InStep (s2 n) c save v = record {
  handle = v.handle;
  baudrate = v.baudrate;
  format_8 = λ e. ground (arith, e);
  format_7 = λ e. ground (arith, e);
}
apply_param-InStep (ee b) c save v = v
apply_param-InStep other c save v = v

apply_params-InStep :
    (ps : List Param) (c : ScaleConfig) (save : Bool)
    → InStep c
    → InStep ((apply_params ps (c, save)).0)
apply_params-InStep [] c save v = v
apply_params-InStep (p ∷ ps) c save v =
    apply_params-InStep ps ((apply_param p (c, save)).0) ((apply_param p (c, save)).1)
      (apply_param-InStep p c save v)

-- Every request leaves the running driver and the UART in step with the stored settings.
http_rest_scale_config-InStep :
    (params : List Param) (c : ScaleConfig)
    → InStep c
    → InStep ((http_rest_scale_config params c).0)
unfolding http_rest_scale_config
http_rest_scale_config-InStep params c v = apply_params-InStep params c false v
