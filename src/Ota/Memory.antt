-- ===== src/Ota/Memory.antt =====
-- What the SDK and the chip promise of the flash, and what a sector's write does to it.
use Prim.Native.Nat.{◌+◌, ◌%◌}
use open_trickler_rp2040_con.Prelude.{
  ℕ, ◌≤◌, ◌<◌, ◌≡◌, ap, ◌∙◌, ◌⊎◌, inl, inr, true, false, ◌&&◌, ltb, leb, Bool-cases, if◌then◌else◌,
  List, length, arith,
}
use open_trickler_rp2040_con.Eeprom.Memory.{written}
use open_trickler_rp2040_con.Ota.{Flash, Board, flash_write_sector_job, flash_write_sector}

-- An erase sets the bytes of its sector, a program stores its bytes where the flash is erased, and a job
-- that is answered with success ran once and whole; one that is answered with an error, such as a
-- timeout, ran whole or not at all.
pub record IsFlash {S : Type 0} (flash : Flash S) : Type 0 where
  pub erase :
      (offset : ℕ) (s : S) (x : ℕ)
      → offset % 4096 ≡ 0
      → flash.xip (flash.flash_range_erase offset 4096 s) x
        ≡ (if leb offset x && ltb x (offset + 4096) then 0xff else flash.xip s x)
  pub program :
      (offset : ℕ) (ds : List ℕ) (s : S) (x : ℕ)
      → offset % 256 ≡ 0
      → length ds % 256 ≡ 0
      → ((y : ℕ) → offset ≤ y → y < offset + length ds → flash.xip s y ≡ 0xff)
      → flash.xip (flash.flash_range_program offset ds s) x ≡ written (flash.xip s) offset ds x
  pub executed :
      (job : S → S) (timeout : ℕ) (s : S)
      → let (ok, s') = flash.flash_safe_execute job timeout s in ok ≡ true → s' ≡ job s
  pub refused :
      (job : S → S) (timeout : ℕ) (s : S)
      → let (ok, s') = flash.flash_safe_execute job timeout s in
        ok ≡ false → (s' ≡ job s) ⊎ (s' ≡ s)

-- The size of the flash is a whole number of pairs of sectors, and an offset is a uint32_t.
pub record IsBoard (b : Board) : Type 0 where
  pub aligned : b.flash_size_bytes % 8192 ≡ 0
  pub in_range : b.flash_size_bytes < 4294967296

module _ {S : Type 0} (flash : Flash S) (good : IsFlash flash) where
  pub rewrite_lem :
      (offset : ℕ) (ds : List ℕ) (s : S) (x : ℕ)
      → offset % 4096 ≡ 0
      → length ds ≡ 4096
      → flash.xip (flash.flash_range_program offset ds (flash.flash_range_erase offset 4096 s)) x
        ≡ written (flash.xip s) offset ds x
  rewrite_lem offset ds s x al len =
      let s' = flash.flash_range_erase offset 4096 s in
      let p =
        good.program offset ds s' x (omega arith) (omega (arith, len))
          (λ y lo hi. ground (arith, good.erase offset s y al, len, lo, hi)) in
      ground (arith, p, good.erase offset s x al, len)

  -- A sector whose write succeeds holds the bytes; one whose write fails holds them or is as it was.
  pub flash_write_sector_lem :
      (offset : ℕ) (ds : List ℕ) (s : S) (x : ℕ)
      → offset % 4096 ≡ 0
      → length ds ≡ 4096
      → let (ok, s') = flash_write_sector flash offset ds s in
        (ok ≡ true → flash.xip s' x ≡ written (flash.xip s) offset ds x)
        × ((flash.xip s' x ≡ written (flash.xip s) offset ds x) ⊎ (flash.xip s' x ≡ flash.xip s x))
  unfolding flash_write_sector flash_write_sector_job
  flash_write_sector_lem offset ds s x al len =
      let job = flash_write_sector_job flash offset ds in
      let (ok, s') = flash.flash_safe_execute job 2000 s in
      let r = rewrite_lem offset ds s x al len in
      let ran : s' ≡ job s → flash.xip s' x ≡ written (flash.xip s) offset ds x =
        λ e. ap (λ m. flash.xip m x) e ∙ r in
      let whole = good.executed job 2000 s in
      (
        λ e. ran (whole e),
        elim (Bool-cases ok) [
          | inl e ↦ inl (ran (whole e))
          | inr e ↦ elim (good.refused job 2000 s e) [
            | inl e' ↦ inl (ran e')
            | inr e' ↦ inr (ap (λ m. flash.xip m x) e')
          ]
        ],
      )
