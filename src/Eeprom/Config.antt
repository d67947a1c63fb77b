-- ===== src/Eeprom/Config.antt =====
-- save_config and load_config of common.c, with eeprom_save_all of eeprom.c. A configuration is the list
-- of its struct's bytes, so `size` is its length.
pub mod RoundTrip
pub mod Recovery
pub mod Apart
mod Tests
use Prim.Native.Nat.{◌+◌, ◌*◌, ◌/◌, ◌%◌}
use open_trickler_rp2040_con.Prelude.{
  ℕ, Bool, true, false, ◌&&◌, ◌==◌, if◌then◌else◌, List, [], ◌∷◌, ◌++◌, length, get_or, set, take,
  drop,
}
use open_trickler_rp2040_con.Eeprom.Driver.{Chip, eeprom_read, eeprom_write}
use open_trickler_rp2040_con.Eeprom.Crc.{software_crc32}

-- A uint32_t and a uint16_t as memcpy moves them, on a little-endian core.
abbrev pub le_bytes : ℕ → List ℕ
le_bytes c = c % 256 ∷ c / 256 % 256 ∷ c / 65536 % 256 ∷ c / 16777216 % 256 ∷ []

unfoldable pub le_u32 : List ℕ → ℕ
le_u32 bs = get_or bs 0 0 + get_or bs 1 0 * 256 + get_or bs 2 0 * 65536 + get_or bs 3 0 * 16777216

unfoldable pub le_u16 : List ℕ → ℕ
le_u16 bs = get_or bs 0 0 + get_or bs 1 0 * 256

-- `memset(cfg, 0x00, sizeof(received_rev))`
unfoldable pub erase_rev : List ℕ → List ℕ
erase_rev cfg = set (set cfg 0 0) 1 0

module _ {S : Type 0} (chip : Chip S) where
  unfoldable pub save_config : ℕ → List ℕ → S → Bool × S
  save_config addr cfg s =
      let buf = cfg ++ le_bytes (software_crc32 cfg) in
      if chip.malloc (length cfg + 4) s then eeprom_write chip addr buf s else (false, s)

  -- load_config behind its successful read: the buffer, the configuration it leaves and the result.
  unfoldable pub accept : ℕ → List ℕ → ℕ → List ℕ → S → Bool × List ℕ × S
  accept addr default_cfg rev buf s =
      let size = length default_cfg in
      let legacy = erase_rev (take size buf) in
      let (legacy_ok, legacy_s) = save_config addr legacy s in
      let (default_ok, default_s) = save_config addr default_cfg s in
      let crc_ok = software_crc32 (take size buf) == le_u32 (drop size buf) in
      if le_u16 buf == rev
      then (legacy_ok, legacy, legacy_s)
      else if (le_u16 buf == 0) && crc_ok
      then (true, take size buf, s)
      else (default_ok, default_cfg, default_s)

  unfoldable pub load_config : ℕ → List ℕ → List ℕ → ℕ → S → Bool × List ℕ × S
  unfolding accept
  load_config addr cfg default_cfg rev s =
      let (ok, buf, s') = eeprom_read chip addr (length default_cfg + 4) s in
      if chip.malloc (length default_cfg + 4) s
      then (if ok then accept addr default_cfg rev buf s' else (false, cfg, s'))
      else (false, cfg, s)

  -- The list of registered save handlers, the last registered first.
  abbrev pub Handlers : Type 0
  Handlers = List (S → Bool × S)

  unfoldable pub eeprom_register_handler : (S → Bool × S) → Handlers → Handlers
  eeprom_register_handler handler handlers = handler ∷ handlers

  -- Every handler runs, whatever the others return.
  unfoldable pub eeprom_save_all : Handlers → S → S
  eeprom_save_all [] s = s
  eeprom_save_all (handler ∷ handlers) s = eeprom_save_all handlers ((handler s).1)
