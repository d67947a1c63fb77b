-- ===== src/Ota.antt =====
-- ota.c: the firmware image that is posted to /ota/upload, staged in the upper half of the flash. The
-- SDK's calls on the flash are the parameter `Flash`; lwIP calls the three hooks with a connection, and
-- hands data over as a chain of buffers.
pub mod Image
pub mod Memory
pub mod Sector
pub mod Staging
pub mod Upload
pub mod Verified
pub mod Install
mod Tests
use Prim.Native.Nat.{◌+◌, ◌-◌, ◌*◌, ◌/◌, ◌%◌}
use open_trickler_rp2040_con.Prelude.{
  ℕ, zero, suc, Bool, true, false, not, ◌&&◌, ◌||◌, ◌==◌, ltb, leb, if◌then◌else◌, Option, none,
  some, List, [], ◌∷◌, ◌++◌, length, take, drop, replicate, inc32,
}
use open_trickler_rp2040_con.Prelude.Int.{ℤ, pos, negsuc}

-- The flash over a state `S`: the SDK's calls, and the bytes that XIP maps, by their offset.
pub record Flash (S : Type 0) : Type 0 where
  pub flash_range_erase : ℕ → ℕ → S → S
  pub flash_range_program : ℕ → List ℕ → S → S
  pub flash_safe_execute : (S → S) → ℕ → S → Bool × S  -- whether it returned PICO_OK
  pub xip : S → ℕ → ℕ

-- What the board's headers define.
pub record Board : Type 0 where
  pub flash_size_bytes : ℕ
  pub sram_base : ℕ
  pub sram_end : ℕ
  pub pico_rp2350 : Bool

abbrev pub sector_bytes : ℕ
sector_bytes = 4096

abbrev pub stage_offset : Board → ℕ
stage_offset b = b.flash_size_bytes / 2

abbrev pub max_image_bytes : Board → ℕ
max_image_bytes b = if ltb (stage_offset b) 1572864 then stage_offset b else 1572864

pub data OtaState : Type 0 where
  idle receiving received verified applying error : OtaState

abbrev pub is_receiving : OtaState → Bool
is_receiving idle = false
is_receiving receiving = true
is_receiving received = false
is_receiving verified = false
is_receiving applying = false
is_receiving error = false

abbrev pub is_applying : OtaState → Bool
is_applying idle = false
is_applying receiving = false
is_applying received = false
is_applying verified = false
is_applying applying = true
is_applying error = false

-- The texts of set_msg.
pub data Message : Type 0 where
  empty bad_image_size receiving_text upload_exceeds flash_write_failed staged_text
        upload_incomplete :
      Message
  crc_mismatch not_an_image verified_text flashing apply_task_failed apply_failed : Message

-- The static variables.
pub record Ota : Type 0 where
  pub ota_state : OtaState
  pub ota_expected : ℕ
  pub ota_received : ℕ
  pub ota_crc : ℕ
  pub ota_message : Message
  pub sector_buf : List ℕ
  pub sector_fill : ℕ
  pub sector_index : ℕ
  pub ota_connection : Option ℕ

pub data Err : Type 0 where
  err_ok err_val : Err

pub data Uri : Type 0 where
  ota_upload other_uri : Uri

-- A chain of lwIP's buffers.
pub record Pbuf : Type 0 where
  pub tot_len : ℕ
  pub chain : List (List ℕ)

abbrev pub is_upload : Uri → Bool
is_upload ota_upload = true
is_upload other_uri = false

abbrev pub same_connection : ℕ → Option ℕ → Bool
same_connection c none = false
same_connection c (some d) = c == d

-- `content_len <= 0 || (uint32_t) content_len > OTA_MAX_IMAGE_BYTES`.
abbrev pub bad_size : Board → ℤ → Bool
bad_size b (negsuc n) = true
bad_size b (pos n) = (n == 0) || ltb (max_image_bytes b) n

-- `(uint32_t) content_len`.
abbrev pub to_uint32 : ℤ → ℕ
to_uint32 (pos n) = n % 4294967296
to_uint32 (negsuc n) = 4294967295 - n % 4294967296

abbrev pub ota_init : Ota → Ota
ota_init o = record o { ota_state = idle }

-- The first hook; the URI of the response is not modelled.
unfoldable pub httpd_post_begin : Board → ℕ → Uri → ℤ → Ota → Err × Ota
httpd_post_begin b connection uri content_len o =
    if not (is_upload uri)
    then (err_val, o)
    else if is_applying o.ota_state || is_receiving o.ota_state
    then (err_val, o)
    else if bad_size b content_len
    then (err_val, record o { ota_state = error; ota_message = bad_image_size })
    else (
      err_ok,
      record o {
        ota_connection = some connection;
        ota_state = receiving;
        ota_expected = to_uint32 content_len;
        ota_received = 0;
        ota_crc = 0;
        sector_fill = 0;
        sector_index = 0;
        ota_message = receiving_text;
      },
    )

-- The `memset` of a sector that is not full.
unfoldable pub padded : Ota → List ℕ
padded o =
    if ltb o.sector_fill sector_bytes
    then take o.sector_fill o.sector_buf ++ replicate (sector_bytes - o.sector_fill) 0xff
    else o.sector_buf

-- How many bytes a pass copies.
abbrev pub chunk_size : Ota → ℕ → ℕ
chunk_size o remaining =
    let space = sector_bytes - o.sector_fill in if ltb remaining space then remaining else space

-- The `memcpy` of n bytes, with the counters.
unfoldable pub copy_chunk : ℕ → List ℕ → Ota → Ota
copy_chunk n d o = record o {
  sector_buf = take o.sector_fill o.sector_buf ++ take n d ++ drop (o.sector_fill + n) o.sector_buf;
  sector_fill = (o.sector_fill + n) % 4294967296;
  ota_received = (o.ota_received + n) % 4294967296;
}

module _ {S : Type 0} (flash : Flash S) where
  unfoldable pub flash_write_sector_job : ℕ → List ℕ → S → S
  flash_write_sector_job offset ds s =
      flash.flash_range_program offset ds (flash.flash_range_erase offset sector_bytes s)

  unfoldable pub flash_write_sector : ℕ → List ℕ → S → Bool × S
  unfolding flash_write_sector_job
  flash_write_sector offset ds s =
      flash.flash_safe_execute (flash_write_sector_job offset ds) 2000 s

module _ {S : Type 0} (flash : Flash S) (b : Board) where
  unfoldable pub flush_sector : Ota → S → Bool × Ota × S
  unfolding flash_write_sector padded
  flush_sector o s =
      let offset = (stage_offset b + o.sector_index * sector_bytes) % 4294967296 in
      let (ok, s') = flash_write_sector flash offset (padded o) s in
      if o.sector_fill == 0 then (true, o, s) else (
        ok,
        record o { sector_buf = padded o; sector_index = inc32 o.sector_index; sector_fill = 0 },
        s',
      )

  -- A sector that is full goes to the flash.
  unfoldable pub flush_if_full : Ota → S → Bool × Ota × S
  unfolding flush_sector
  flush_if_full o s = if o.sector_fill == sector_bytes then flush_sector o s else (true, o, s)

  -- The loop over one buffer, `false` where a write fails. A pass copies at least a byte, so the length of
  -- the buffer is enough passes.
  unfoldable pub copy_buffer : ℕ → List ℕ → Ota → S → Bool × Ota × S
  unfolding flush_if_full copy_chunk
  copy_buffer zero d o s = (true, o, s)
  copy_buffer (suc passes) [] o s = (true, o, s)
  copy_buffer (suc passes) (byte ∷ d) o s =
      let n = chunk_size o (length (byte ∷ d)) in
      let o' = copy_chunk n (byte ∷ d) o in
      let (ok, o'', s') = flush_if_full o' s in
      let rest = copy_buffer passes (drop n (byte ∷ d)) o'' s' in
      if ok then rest else (false, o'', s')

  -- The loop over the chain.
  unfoldable pub copy_chain : List (List ℕ) → Ota → S → Bool × Ota × S
  unfolding copy_buffer
  copy_chain [] o s = (true, o, s)
  copy_chain (d ∷ ds) o s =
      let (ok, o', s') = copy_buffer (length d) d o s in
      let rest = copy_chain ds o' s' in if ok then rest else (false, o', s')

  unfoldable pub httpd_post_receive_data : ℕ → Pbuf → Ota → S → Err × Ota × S
  unfolding copy_chain
  httpd_post_receive_data connection p o s =
      let (ok, o', s') = copy_chain p.chain o s in
      if not (same_connection connection o.ota_connection) || not (is_receiving o.ota_state)
      then (err_val, o, s)
      else if ltb ((o.ota_expected + 4294967296 - o.ota_received) % 4294967296) p.tot_len
      then (err_val, record o { ota_state = error; ota_message = upload_exceeds }, s)
      else if ok
      then (err_ok, o', s')
      else (err_val, record o' { ota_state = error; ota_message = flash_write_failed }, s')

  -- Behind the last flush.
  abbrev pub close_upload : Bool → Ota → Ota
  close_upload ok o =
      if ok && (o.ota_received == o.ota_expected)
      then record o { ota_state = received; ota_message = staged_text }
      else record o { ota_state = error; ota_message = upload_incomplete }

  unfoldable pub httpd_post_finished : ℕ → Ota → S → Ota × S
  unfolding flush_sector
  httpd_post_finished connection o s =
      let (ok, o', s') = flush_sector o s in
      let same = same_connection connection o.ota_connection in
      let (closed, s'') =
        if same && is_receiving o.ota_state then (close_upload ok o', s') else (o, s) in
      (if same then record closed { ota_connection = none } else closed, s'')
