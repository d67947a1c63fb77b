-- ===== src/Eeprom/Config/RoundTrip.antt =====
-- What is saved is what is loaded, over a chip that behaves as a memory and a heap that has room.
use Prim.Native.Nat.{◌+◌, ◌-◌, ◌%◌}
use open_trickler_rp2040_con.Prelude.{
  ℕ, ◌≤◌, ◌<◌, ◌≡◌, ◌≢◌, refl, ap, ◌∙◌, true, List, [], ◌∷◌, ◌++◌, length, length-append, get_or,
  take, drop, arith,
}
use open_trickler_rp2040_con.Eeprom.Driver.{Chip, eeprom_read}
use open_trickler_rp2040_con.Eeprom.Memory.{
  IsMemory, written, window, window-eq, eeprom_write_lem, eeprom_read_lem,
}
use open_trickler_rp2040_con.Eeprom.Crc.{software_crc32}
use open_trickler_rp2040_con.Eeprom.Config.{
  le_bytes, le_u32, le_u16, erase_rev, save_config, accept, load_config,
}

-- Where a configuration of `size` bytes may live: on a page boundary, with its checksum on the chip.
pub record Fits (addr size : ℕ) : Type 0 where
  pub aligned : addr % 64 ≡ 0
  pub on_chip : addr + (size + 4) ≤ 32768

-- The bytes that save_config writes.
abbrev pub image : List ℕ → List ℕ
image cfg = cfg ++ le_bytes (software_crc32 cfg)

software_crc32-lt : (bs : List ℕ) → software_crc32 bs < 4294967296
unfolding software_crc32
software_crc32-lt bs = omega arith

le_u32-le_bytes : (c : ℕ) → c < 4294967296 → le_u32 (le_bytes c) ≡ c
unfolding le_u32
le_u32-le_bytes c h = omega arith

take-image : (cfg rest : List ℕ) → take (length cfg) (cfg ++ rest) ≡ cfg
take-image [] rest = refl
take-image (b ∷ bs) rest = ap (λ l. b ∷ l) (take-image bs rest)

drop-image : (cfg rest : List ℕ) → drop (length cfg) (cfg ++ rest) ≡ rest
drop-image [] rest = refl
drop-image (b ∷ bs) rest = drop-image bs rest

-- The first two bytes are zero.
abbrev pub NoRev : List ℕ → Type 0
NoRev cfg = (2 ≤ length cfg) × (get_or cfg 0 0 ≡ 0) × (get_or cfg 1 0 ≡ 0)

le_u16-image : (cfg rest : List ℕ) → NoRev cfg → le_u16 (cfg ++ rest) ≡ 0
unfolding le_u16
le_u16-image [] rest h = absurd (omega arith)
le_u16-image (b ∷ []) rest h = absurd (omega arith)
le_u16-image (b ∷ c ∷ bs) rest h = omega arith

pub erase_rev-NoRev : (cfg : List ℕ) → 2 ≤ length cfg → NoRev (erase_rev cfg)
unfolding erase_rev
erase_rev-NoRev [] h = absurd (omega arith)
erase_rev-NoRev (b ∷ []) h = absurd (omega arith)
erase_rev-NoRev (b ∷ c ∷ bs) h = omega arith

written_at :
    (m : ℕ → ℕ) (a i : ℕ) (ds : List ℕ) → i < length ds → written m a ds (a + i) ≡ get_or ds i 0
written_at m a i ds h = let back : a + i - a ≡ i = omega arith in rw back (ground arith)

window-image :
    (m m' : ℕ → ℕ) (a : ℕ) (ds : List ℕ)
    → ((x : ℕ) → m' x ≡ written m a ds x)
    → window m' a (length ds) ≡ ds
window-image m m' a ds h = window-eq m' a ds (λ i hi. h (a + i) ∙ written_at m a i ds hi)

module _ {S : Type 0} (chip : Chip S) (mem : S → ℕ → ℕ) (good : IsMemory chip mem) where
  module _ (room : (n : ℕ) (s : S) → chip.malloc n s ≡ true) where
    -- A save succeeds, and the memory then holds the configuration and its checksum.
    pub save_config_lem :
        (addr : ℕ) (cfg : List ℕ) (s : S)
        → Fits addr (length cfg)
        → let (ok, s') = save_config chip addr cfg s in
          (ok ≡ true)
          × (window (mem s') addr (length cfg + 4) ≡ image cfg)
          × ((x : ℕ) → mem s' x ≡ written (mem s) addr (image cfg) x)
    unfolding save_config
    save_config_lem addr cfg s f =
        let len = length-append cfg (le_bytes (software_crc32 cfg)) in
        let w = eeprom_write_lem chip mem good addr (image cfg) s f.aligned (omega (arith, len)) in
        rw (room (length cfg + 4) s)
          (w.0, rw len at (window-image (mem s) (mem _) addr (image cfg) w.1), w.1)

    -- accept on an image that save_config wrote: the configuration is taken as it is.
    pub accept-image :
        (addr rev : ℕ) (cfg default_cfg : List ℕ) (s : S)
        → length default_cfg ≡ length cfg
        → NoRev cfg
        → rev ≢ 0
        → accept chip addr default_cfg rev (image cfg) s ≡ (true, cfg, s)
    unfolding accept
    accept-image addr rev cfg default_cfg s len nr h = rw len (
        ground (
          arith,
          le_u16-image cfg (le_bytes (software_crc32 cfg)) nr,
          take-image cfg (le_bytes (software_crc32 cfg)),
          drop-image cfg (le_bytes (software_crc32 cfg)),
          le_u32-le_bytes (software_crc32 cfg) (software_crc32-lt cfg),
        ))

    pub load_config-eq-accept :
        (addr rev : ℕ) (old default_cfg : List ℕ) (s : S)
        → addr + (length default_cfg + 4) ≤ 32768
        → let (_, buf, s') = eeprom_read chip addr (length default_cfg + 4) s in
          (load_config chip addr old default_cfg rev s ≡ accept chip addr default_cfg rev buf s')
          × (buf ≡ window (mem s) addr (length default_cfg + 4))
          × ((x : ℕ) → mem s' x ≡ mem s x)
    unfolding load_config
    load_config-eq-accept addr rev old default_cfg s fit =
        let r = eeprom_read_lem chip mem good addr (length default_cfg + 4) s fit in
        rw (room (length default_cfg + 4) s, r.0) (refl, r.1, r.2)

    -- A load from a memory that holds the image of `cfg`.
    pub load-image :
        (addr rev : ℕ) (old cfg default_cfg : List ℕ) (s : S)
        → Fits addr (length cfg)
        → length default_cfg ≡ length cfg
        → NoRev cfg
        → rev ≢ 0
        → window (mem s) addr (length cfg + 4) ≡ image cfg
        → let (ok, cfg', s') = load_config chip addr old default_cfg rev s in
          (ok ≡ true) × (cfg' ≡ cfg) × ((x : ℕ) → mem s' x ≡ mem s x)
    load-image addr rev old cfg default_cfg s f len nr h win =
        let (eq, buf, kept) = load_config-eq-accept addr rev old default_cfg s (omega arith) in
        let same : (eeprom_read chip addr (length default_cfg + 4) s).1 ≡ image cfg =
          buf ∙ rw len win in
        rw (eq, same, accept-image addr rev cfg default_cfg _ len nr h) (refl, refl, kept)

    -- On a chip that always answers and behaves as a memory, with a heap that never refuses: a
    -- configuration that was saved is loaded again, byte for byte, if its revision bytes are zero, its
    -- place is page-aligned and on the chip, and the revision to migrate from is not zero; the load
    -- changes no byte of the chip.
    pub load-save :
        (addr rev : ℕ) (old cfg default_cfg : List ℕ) (s : S)
        → Fits addr (length cfg)
        → length default_cfg ≡ length cfg
        → NoRev cfg
        → rev ≢ 0
        → let (saved, s1) = save_config chip addr cfg s in
          let (ok, cfg', s2) = load_config chip addr old default_cfg rev s1 in
          (saved ≡ true) × (ok ≡ true) × (cfg' ≡ cfg) × ((x : ℕ) → mem s2 x ≡ mem s1 x)
    load-save addr rev old cfg default_cfg s f len nr h =
        let w = save_config_lem addr cfg s f in
        let r =
          load-image addr rev old cfg default_cfg ((save_config chip addr cfg s).1) f len nr h
            w.1 in
        (w.0, r.0, r.1, r.2)
