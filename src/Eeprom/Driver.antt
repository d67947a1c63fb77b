-- ===== src/Eeprom/Driver.antt =====
-- cat24c256_eeprom.c and eeprom_read, eeprom_write of eeprom.c: bytes to and from the chip, in pages of
-- 64. The I2C transfers, the wait behind a page and malloc are the SDK's, so `Chip` takes them as a parameter over the state
-- `S` of the bus and the chip. The mutex of eeprom.c makes each transfer one step.
use Prim.Native.Nat.{◌+◌, ◌*◌, ◌/◌, ◌%◌}
use open_trickler_rp2040_con.Prelude.{
  ℕ, zero, suc, Bool, true, false, ◌==◌, if◌then◌else◌, List, [], ◌∷◌, length, take, drop,
  replicate,
}

pub record Chip (S : Type 0) : Type 0 where
  pub i2c_write : List ℕ → S → Bool × S  -- false is PICO_ERROR_GENERIC
  pub i2c_read : ℕ → S → List ℕ × S  -- the bytes read, at most as many as asked for
  pub busy_wait_us : ℕ → S → S
  pub malloc : ℕ → S → Bool  -- whether the heap has the bytes

abbrev pub page_size : ℕ
page_size = 64

-- The two address bytes.
abbrev pub address : ℕ → List ℕ
address a = a / 256 % 256 ∷ a % 256 ∷ []

module _ {S : Type 0} (chip : Chip S) where
  unfoldable pub cat24c256_write_page : ℕ → List ℕ → S → Bool × S
  cat24c256_write_page a ds s = chip.i2c_write (a / 256 % 256 ∷ a % 256 ∷ ds) s

  -- The loop of cat24c256_write with n pages to go.
  unfoldable pub write_pages : ℕ → ℕ → ℕ → List ℕ → S → Bool × S
  write_pages zero page base ds s = (true, s)
  write_pages (suc n) page base ds s =
      let offset = page * page_size % 65536 in
      let size =
        if page == length ds / page_size % 65536 then length ds % page_size else page_size in
      let (ok, s') =
        cat24c256_write_page ((base + offset) % 65536) (take size (drop offset ds)) s in
      let s'' = chip.busy_wait_us 5000 s' in
      let rest = write_pages n ((page + 1) % 65536) base ds s'' in if ok then rest else (false, s'')

  unfoldable pub cat24c256_write : ℕ → List ℕ → S → Bool × S
  cat24c256_write base ds s = write_pages (suc (length ds / page_size % 65536)) 0 base ds s

  -- The bytes that are read; the result is `true` if there are `len` of them.
  unfoldable pub cat24c256_read : ℕ → ℕ → S → Bool × List ℕ × S
  cat24c256_read a len s =
      let (_, s') = chip.i2c_write (address a) s in
      let (ds, s'') = chip.i2c_read len s' in (length ds == len, ds, s'')

  unfoldable pub eeprom_write : ℕ → List ℕ → S → Bool × S
  eeprom_write a ds s = cat24c256_write a ds s

  unfoldable pub eeprom_read : ℕ → ℕ → S → Bool × List ℕ × S
  eeprom_read a len s = cat24c256_read a len s

  -- The loop of cat24c256_eeprom_erase with n pages to go.
  unfoldable pub erase_pages : ℕ → ℕ → S → S
  erase_pages zero page s = s
  erase_pages (suc n) page s =
      erase_pages n (page + 1)
        ((cat24c256_write (page * page_size % 65536) (replicate page_size 0xff) s).1)

  unfoldable pub cat24c256_eeprom_erase : S → S
  cat24c256_eeprom_erase s = erase_pages 512 0 s
