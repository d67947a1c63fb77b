-- ===== src/Eeprom/Memory.antt =====
-- The driver over a chip that behaves as a memory: what is written is what is read.
use Prim.Native.Nat.{◌+◌, ◌-◌, ◌*◌, ◌/◌, ◌%◌}
use open_trickler_rp2040_con.Prelude.{
  ℕ, zero, suc, ◌≤◌, ◌<◌, ◌≡◌, refl, ap, ap₂, ◌∙◌, true, false, ◌&&◌, leb, ltb, ◌==◌, if◌then◌else◌,
  List, [], ◌∷◌, length, get_or, take, drop, length-take, length-drop, get_or-take, get_or-drop,
  eq→==, arith,
}
use open_trickler_rp2040_con.Eeprom.Driver.{
  Chip, address, cat24c256_write_page, write_pages, cat24c256_write, cat24c256_read, eeprom_write,
  eeprom_read,
}

-- The memory `m` with the bytes `ds` at the address `a`.
abbrev pub written : (ℕ → ℕ) → ℕ → List ℕ → ℕ → ℕ
written m a ds x = if leb a x && ltb x (a + length ds) then get_or ds (x - a) 0 else m x

-- The n bytes from the address a on.
abbrev pub window : (ℕ → ℕ) → ℕ → ℕ → List ℕ
window m a zero = []
window m a (suc n) = m a ∷ window m (suc a) n

-- What the chip's data sheet promises of a chip that answers: a write inside one page stores its bytes
-- and nothing else by the end of its write cycle of 5 ms, and a read from a set address returns the bytes from there on.
pub record IsMemory {S : Type 0} (chip : Chip S) (mem : S → ℕ → ℕ) : Type 0 where
  pub page_write :
      (a : ℕ) (ds : List ℕ) (s : S)
      → a % 64 + length ds ≤ 64
      → a + length ds ≤ 32768
      → let (ok, s') = chip.i2c_write (a / 256 % 256 ∷ a % 256 ∷ ds) s in
        (ok ≡ true) × ((x : ℕ) → mem (chip.busy_wait_us 5000 s') x ≡ written (mem s) a ds x)
  pub read_from :
      (a n : ℕ) (s : S)
      → a + n ≤ 32768
      → let s' = (chip.i2c_write (address a) s).1 in
        let (ds, s'') = chip.i2c_read n s' in
        (ds ≡ window (mem s) a n) × ((x : ℕ) → mem s'' x ≡ mem s x)

pub window-eq :
    (m : ℕ → ℕ) (a : ℕ) (ds : List ℕ)
    → ((i : ℕ) → i < length ds → m (a + i) ≡ get_or ds i 0)
    → window m a (length ds) ≡ ds
window-eq m a [] h = refl
window-eq m a (d ∷ ds) h =
    ap₂ ◌∷◌ (ap m (omega arith) ∙ h 0 (omega arith))
      (window-eq m (suc a) ds (λ i hi. ap m (omega arith) ∙ h (suc i) (omega arith)))

pub window-cong : (m m' : ℕ → ℕ) (a n : ℕ) → ((x : ℕ) → m x ≡ m' x) → window m a n ≡ window m' a n
window-cong m m' a zero h = refl
window-cong m m' a (suc n) h = ap₂ ◌∷◌ (h a) (window-cong m m' (suc a) n h)

pub length-window : (m : ℕ → ℕ) (a n : ℕ) → length (window m a n) ≡ n
length-window m a zero = refl
length-window m a (suc n) = ap suc (length-window m (suc a) n)

pub get_or-window : (m : ℕ → ℕ) (a n i : ℕ) → i < n → get_or (window m a n) i 0 ≡ m (a + i)
get_or-window m a zero i h = absurd (omega arith)
get_or-window m a (suc n) zero h = ap m (omega arith)
get_or-window m a (suc n) (suc i) h = get_or-window m (suc a) n i (omega arith) ∙ ap m (omega arith)

-- The bytes that go to one page.
chunk_size : List ℕ → ℕ → ℕ
chunk_size ds page = if page == length ds / 64 then length ds % 64 else 64

chunk : List ℕ → ℕ → List ℕ
chunk ds page = take (chunk_size ds page) (drop (page * 64) ds)

chunk_size_lem :
    (ds : List ℕ) (page : ℕ)
    → page ≤ length ds / 64
    → (chunk_size ds page ≤ 64)
      × (page * 64 + chunk_size ds page ≤ length ds)
      × ((page ≡ length ds / 64) → page * 64 + chunk_size ds page ≡ length ds)
      × ((page < length ds / 64) → chunk_size ds page ≡ 64)
unfolding chunk_size
chunk_size_lem ds page h = ground arith

length-chunk :
    (ds : List ℕ) (page : ℕ) → page ≤ length ds / 64 → length (chunk ds page) ≡ chunk_size ds page
unfolding chunk
length-chunk ds page h = omega (
  arith,
  length-take (chunk_size ds page) (drop (page * 64) ds),
  length-drop (page * 64) ds,
  chunk_size_lem ds page h,
)

get_or-chunk :
    (ds : List ℕ) (page i : ℕ)
    → i < chunk_size ds page
    → get_or (chunk ds page) i 0 ≡ get_or ds (page * 64 + i) 0
unfolding chunk
get_or-chunk ds page i h =
    get_or-take (drop (page * 64) ds) (chunk_size ds page) i 0 h ∙ get_or-drop ds (page * 64) i 0

module _ {S : Type 0} (chip : Chip S) where
  write_pages-suc :
      (n page base : ℕ) (ds : List ℕ) (s : S)
      → base + length ds ≤ 32768
      → page ≤ length ds / 64
      → let (ok, s') = cat24c256_write_page chip (base + page * 64) (chunk ds page) s in
        let s'' = chip.busy_wait_us 5000 s' in
        write_pages chip (suc n) page base ds s
        ≡ (if ok then write_pages chip n (page + 1) base ds s'' else (false, s''))
  unfolding write_pages chunk chunk_size
  write_pages-suc n page base ds s fit h = rw (offset, place, pages, next)
    where
      offset : page * 64 % 65536 ≡ page * 64
      offset = omega arith

      place : (base + page * 64) % 65536 ≡ base + page * 64
      place = omega arith

      pages : length ds / 64 % 65536 ≡ length ds / 64
      pages = omega arith

      next : (page + 1) % 65536 ≡ page + 1
      next = omega arith

module _ {S : Type 0} (chip : Chip S) (mem : S → ℕ → ℕ) (good : IsMemory chip mem) where
  write_page_lem :
      (page base : ℕ) (ds : List ℕ) (s : S)
      → base % 64 ≡ 0
      → base + length ds ≤ 32768
      → page ≤ length ds / 64
      → let (ok, s') = cat24c256_write_page chip (base + page * 64) (chunk ds page) s in
        (ok ≡ true)
        × ((x : ℕ)
            → mem (chip.busy_wait_us 5000 s') x ≡ (
                if leb (base + page * 64) x && ltb x (base + page * 64 + chunk_size ds page)
                then get_or ds (x - base) 0
                else mem s x))
  unfolding cat24c256_write_page
  write_page_lem page base ds s al fit h =
      let size = chunk_size_lem ds page h in
      let len = length-chunk ds page h in
      let w =
        good.page_write (base + page * 64) (chunk ds page) s (omega (arith, size, len))
          (omega (arith, size, len)) in
      (w.0, λ x. ground (arith, w.1 x, len, get_or-chunk ds page (x - (base + page * 64))))

  -- The pages from `page` on, where n of them are to go.
  write_pages_lem :
      (n page base : ℕ) (ds : List ℕ) (s : S)
      → base % 64 ≡ 0
      → base + length ds ≤ 32768
      → page + n ≡ suc (length ds / 64)
      → let (ok, s') = write_pages chip n page base ds s in
        (ok ≡ true)
        × ((x : ℕ)
            → mem s' x ≡ (
                if leb (base + page * 64) x && ltb x (base + length ds)
                then get_or ds (x - base) 0
                else mem s x))
  unfolding write_pages
  write_pages_lem zero page base ds s al fit e = (refl, λ x. ground arith)
  write_pages_lem (suc n) page base ds s al fit e =
      let h : page ≤ length ds / 64 = omega arith in
      let s' =
        chip.busy_wait_us 5000 (cat24c256_write_page chip (base + page * 64) (chunk ds page) s).1 in
      let w = write_page_lem page base ds s al fit h in
      let rest = write_pages_lem n (page + 1) base ds s' al fit (omega arith) in
      let size = chunk_size_lem ds page h in
      rw (write_pages-suc chip n page base ds s fit h, w.0)
        (rest.0, λ x. ground (arith, rest.1 x, w.1 x, size))

  -- A write to a page boundary succeeds, stores its bytes, and changes no other byte.
  pub eeprom_write_lem :
      (a : ℕ) (ds : List ℕ) (s : S)
      → a % 64 ≡ 0
      → a + length ds ≤ 32768
      → let (ok, s') = eeprom_write chip a ds s in
        (ok ≡ true) × ((x : ℕ) → mem s' x ≡ written (mem s) a ds x)
  unfolding eeprom_write cat24c256_write
  eeprom_write_lem a ds s al fit =
      let pages : length ds / 64 % 65536 ≡ length ds / 64 = omega arith in
      let r = write_pages_lem (suc (length ds / 64)) 0 a ds s al fit (omega arith) in
      rw pages (r.0, λ x. ground (arith, r.1 x))

  -- A read succeeds, returns the bytes from the address on, and changes no byte.
  pub eeprom_read_lem :
      (a n : ℕ) (s : S)
      → a + n ≤ 32768
      → let (ok, ds, s') = eeprom_read chip a n s in
        (ok ≡ true) × (ds ≡ window (mem s) a n) × ((x : ℕ) → mem s' x ≡ mem s x)
  unfolding eeprom_read cat24c256_read
  eeprom_read_lem a n s fit =
      let r = good.read_from a n s fit in
      let len = ap (λ ds. length ds) r.0 ∙ length-window (mem s) a n in (eq→== _ _ len, r.0, r.1)
