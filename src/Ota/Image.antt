-- ===== src/Ota/Image.antt =====
-- ota.c: the staged image's checksum, its vector table, the copy over the running image, and the request
-- /rest/ota_state with its actions.
use Prim.Native.Nat.{◌+◌, ◌-◌, ◌*◌, ◌/◌, ◌%◌, bit_and, bit_xor}
use open_trickler_rp2040_con.Prelude.{
  ℕ, zero, suc, Bool, true, false, not, ◌&&◌, ◌==◌, ltb, leb, if◌then◌else◌, Option, none, some,
  List, [], ◌∷◌,
}
use open_trickler_rp2040_con.Eeprom.Memory.{window}
use open_trickler_rp2040_con.Ota.{
  Flash, Board, sector_bytes, stage_offset, OtaState, idle, received, verified, applying, error,
  is_applying, is_receiving, empty, crc_mismatch, not_an_image, verified_text, flashing,
  apply_task_failed, apply_failed, Ota,
}

-- One bit: `(crc >> 1) ^ (0xEDB88320 & (0 - (crc & 1)))`.
unfoldable pub crc_shift : ℕ → ℕ
crc_shift crc = bit_xor (crc / 2) (bit_and 0xedb88320 ((4294967296 - crc % 2) % 4294967296))

unfoldable pub crc_shifts : ℕ → ℕ → ℕ
unfolding crc_shift
crc_shifts zero crc = crc
crc_shifts (suc n) crc = crc_shifts n (crc_shift crc)

unfoldable pub crc_bytes : List ℕ → ℕ → ℕ
unfolding crc_shifts
crc_bytes [] crc = crc
crc_bytes (d ∷ ds) crc = crc_bytes ds (crc_shifts 8 (bit_xor crc d))

-- A word of the flash, in the processor's byte order.
abbrev pub word_at : (ℕ → ℕ) → ℕ → ℕ
word_at m a = m a + 256 * m (a + 1) + 65536 * m (a + 2) + 16777216 * m (a + 3)

-- What strcmp finds in the value of a0, and the other keys.
pub data Action : Type 0 where
  reset verify apply other_action : Action

pub data Param : Type 0 where
  a0 : Action → Param
  crc : List ℕ → Param
  other_param : Param

-- The local variables of the request.
pub record Request : Type 0 where
  pub action : Option Action
  pub client_crc : ℕ
  pub have_crc : Bool

-- `strtoul` reads hexadecimal digits; an unsigned long has 32 bits on this processor.
module _ (strtoul : List ℕ → ℕ) where
  unfoldable pub read_params : List Param → Request → Request
  read_params [] r = r
  read_params (a0 action ∷ ps) r = read_params ps (record r { action = some action })
  read_params (crc v ∷ ps) r = read_params ps (record r { client_crc = strtoul v; have_crc = true })
  read_params (other_param ∷ ps) r = read_params ps r

abbrev pub no_request : Request
no_request = record { action = none; client_crc = 0; have_crc = false }

abbrev pub is_received : OtaState → Bool
is_received idle = false
is_received OtaState.receiving = false
is_received received = true
is_received verified = false
is_received applying = false
is_received error = false

abbrev pub is_verified : OtaState → Bool
is_verified idle = false
is_verified OtaState.receiving = false
is_verified received = false
is_verified verified = true
is_verified applying = false
is_verified error = false

-- Behind the parameters; `created` is what xTaskCreate answers. The result says whether a task was
-- created.
-- `(ota_received + OTA_SECTOR_BYTES - 1) & ~(OTA_SECTOR_BYTES - 1)`.
abbrev pub whole_sectors : ℕ → ℕ
whole_sectors n = (n + (sector_bytes - 1)) % 4294967296 / sector_bytes * sector_bytes

module _ {S : Type 0} (flash : Flash S) where
  unfoldable pub crc32_flash : ℕ → ℕ → S → ℕ
  unfolding crc_bytes
  crc32_flash offset len s =
      bit_xor (crc_bytes (window (flash.xip s) offset len) 0xffffffff) 0xffffffff

abbrev pub vector_offset : Board → ℕ
vector_offset b = if b.pico_rp2350 then 0 else 256

module _ {S : Type 0} (flash : Flash S) (b : Board) where
  unfoldable pub staged_image_plausible : ℕ → S → Bool
  staged_image_plausible len s =
      let sp = word_at (flash.xip s) (stage_offset b + vector_offset b) in
      let reset_vector = word_at (flash.xip s) (stage_offset b + vector_offset b + 4) in
      not (ltb len 4096)
      && ((leb b.sram_base sp && (leb sp b.sram_end && (sp % 8 == 0)))
          && (leb 0x10000000 reset_vector
              && (ltb reset_vector ((0x10000000 + len) % 4294967296) && (reset_vector % 2 == 1))))

  -- The loop of ota_apply_job with n sectors to go, up to its reboot.
  unfoldable pub copy_sectors : ℕ → ℕ → S → S
  copy_sectors zero off s = s
  copy_sectors (suc n) off s =
      let copy_buf = window (flash.xip s) (stage_offset b + off) sector_bytes in
      copy_sectors n (off + sector_bytes)
        (flash.flash_range_program off copy_buf (flash.flash_range_erase off sector_bytes s))

  unfoldable pub ota_apply_job : ℕ → S → S
  unfolding copy_sectors
  ota_apply_job len = copy_sectors ((len + (sector_bytes - 1)) / sector_bytes) 0

  -- Whether the board rebooted; the job does not return, so the rest runs only where it did not start.
  unfoldable pub ota_apply_task : Ota → S → Bool × Ota × S
  unfolding ota_apply_job
  ota_apply_task o s =
      let (ok, s') =
        flash.flash_safe_execute (ota_apply_job (whole_sectors o.ota_received)) 5000 s in
      (ok, (if ok then o else record o { ota_state = error; ota_message = apply_failed }), s')

  -- The verification of an image that was received.
  unfoldable pub verify_image : ℕ → Ota → S → Ota
  unfolding crc32_flash staged_image_plausible
  verify_image client_crc o s =
      let found = crc32_flash flash (stage_offset b) o.ota_received s in
      if not (found == client_crc)
      then record o { ota_crc = found; ota_state = error; ota_message = crc_mismatch }
      else if not (staged_image_plausible o.ota_received s)
      then record o { ota_crc = found; ota_state = error; ota_message = not_an_image }
      else record o { ota_crc = found; ota_state = verified; ota_message = verified_text }

  unfoldable pub act : Bool → ℕ → Bool → Option Action → Ota → S → Bool × Ota
  unfolding verify_image
  act created client_crc have_crc none o s = (false, o)
  act created client_crc have_crc (some reset) o s = (
    false,
    if not (is_applying o.ota_state) && not (is_receiving o.ota_state)
        then record o { ota_state = idle; ota_received = 0; ota_expected = 0; ota_message = empty }
        else o,
  )
  act created client_crc have_crc (some verify) o s =
      (false, if is_received o.ota_state && have_crc then verify_image client_crc o s else o)
  act created client_crc have_crc (some apply) o s =
      if is_verified o.ota_state
      then (
        created,
        if created
            then record o { ota_state = applying; ota_message = flashing }
            else record o { ota_state = error; ota_message = apply_task_failed },
      )
      else (false, o)
  act created client_crc have_crc (some other_action) o s = (false, o)

  unfoldable pub http_rest_ota_state : (List ℕ → ℕ) → Bool → List Param → Ota → S → Bool × Ota
  unfolding read_params act
  http_rest_ota_state strtoul created params =
      let r = read_params strtoul params no_request in act created r.client_crc r.have_crc r.action
