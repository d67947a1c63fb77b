-- ===== src/Eeprom/Config/Recovery.antt =====
-- What load_config does with a chip whose content is not a current image: migration, defaults, erasure.
use Prim.Native.Nat.{◌+◌}
use open_trickler_rp2040_con.Prelude.{
  ℕ, ◌≡◌, ◌≢◌, refl, ap, ◌∙◌, sym, ◌⊎◌, inl, inr, Bool, true, false, ◌&&◌, ◌==◌, List, length,
  length-set, length-take, take, drop, arith, Bool-cases,
}
use open_trickler_rp2040_con.Eeprom.Driver.{Chip, eeprom_read}
use open_trickler_rp2040_con.Eeprom.Memory.{IsMemory, window, window-cong, length-window}
use open_trickler_rp2040_con.Eeprom.Crc.{software_crc32}
use open_trickler_rp2040_con.Eeprom.Config.{
  le_u32, le_u16, erase_rev, save_config, accept, load_config,
}
use open_trickler_rp2040_con.Eeprom.Config.RoundTrip.{
  Fits, NoRev, image, erase_rev-NoRev, save_config_lem, accept-image, load_config-eq-accept,
}

pub length-erase_rev : (cfg : List ℕ) → length (erase_rev cfg) ≡ length cfg
unfolding erase_rev
length-erase_rev cfg = length-set _ 1 0 ∙ length-set cfg 0 0

module _ {S : Type 0} (chip : Chip S) (mem : S → ℕ → ℕ) (good : IsMemory chip mem) where
  module _ (room : (n : ℕ) (s : S) → chip.malloc n s ≡ true) where
    -- What holds after accept, with the buffer that the chip holds.
    record Settled (addr rev : ℕ) (default_cfg : List ℕ) (out : Bool × List ℕ × S) : Type 0 where
      success : out.0 ≡ true
      settled :
          (s' : S)
          → accept chip addr default_cfg rev (window (mem out.2) addr (length default_cfg + 4)) s'
            ≡ (true, out.1, s')

    accept-saved :
        (addr rev : ℕ) (cfg default_cfg : List ℕ) (s : S)
        → Fits addr (length cfg)
        → length default_cfg ≡ length cfg
        → NoRev cfg
        → rev ≢ 0
        → Settled addr rev default_cfg
            ((save_config chip addr cfg s).0, cfg, (save_config chip addr cfg s).1)
    accept-saved addr rev cfg default_cfg s f len nr h =
        let w = save_config_lem chip mem good room addr cfg s f in
        record {
          success = w.0;
          settled = λ s'.
              rw (len, w.1) (accept-image chip mem good room addr rev cfg default_cfg s' len nr h);
        }

    accept-Settled :
        (addr rev : ℕ) (default_cfg : List ℕ) (s s0 : S)
        → Fits addr (length default_cfg)
        → NoRev default_cfg
        → rev ≢ 0
        → ((x : ℕ) → mem s x ≡ mem s0 x)
        → Settled addr rev default_cfg
            (accept chip addr default_cfg rev (window (mem s0) addr (length default_cfg + 4)) s)
    unfolding accept
    accept-Settled addr rev default_cfg s s0 f nr h kept =
        let size = length default_cfg in
        let buf = window (mem s0) addr (size + 4) in
        let again = window-cong (mem s) (mem s0) addr (size + 4) kept in
        let legacy = erase_rev (take size buf) in
        let len : length (take size buf) ≡ size =
          omega (arith, length-take size buf, length-window (mem s0) addr (size + 4)) in
        let len' : length legacy ≡ size = length-erase_rev (take size buf) ∙ len in
        elim (Bool-cases (le_u16 buf == rev)) [
          | inl old ↦ rw old (
              accept-saved addr rev legacy default_cfg s (rw len' f) (sym len')
                (erase_rev-NoRev (take size buf) (omega arith)) h)
          | inr new ↦
              elim (Bool-cases
                ((le_u16 buf == 0) && (software_crc32 (take size buf) == le_u32 (drop size buf)))) [
                  | inl current ↦
                      rw (new, current)
                        (record { success = refl; settled = λ s'. rw (again, new, current) })
                  | inr stale ↦
                      rw (new, stale) (accept-saved addr rev default_cfg default_cfg s f refl nr h)
                ]
        ]

    -- On a chip that always answers and behaves as a memory, with a heap that never refuses, for a place
    -- that is page-aligned and on the chip, defaults whose revision bytes are zero and a revision to
    -- migrate from that is not: a load settles the configuration, whatever the chip held (a current
    -- image, one of the old revision, or anything else); it succeeds, and the next load returns the same
    -- configuration.
    pub load-load :
        (addr rev : ℕ) (old old' default_cfg : List ℕ) (s : S)
        → Fits addr (length default_cfg)
        → NoRev default_cfg
        → rev ≢ 0
        → let (ok, cfg, s1) = load_config chip addr old default_cfg rev s in
          let (ok', cfg', _) = load_config chip addr old' default_cfg rev s1 in
          (ok ≡ true) × (ok' ≡ true) × (cfg' ≡ cfg)
    load-load addr rev old old' default_cfg s f nr h =
        let (eq, buf, kept) =
          load_config-eq-accept chip mem good room addr rev old default_cfg s f.on_chip in
        let out = load_config chip addr old default_cfg rev s in
        let (eq', buf', _) =
          load_config-eq-accept chip mem good room addr rev old' default_cfg out.2 f.on_chip in
        let r = eeprom_read chip addr (length default_cfg + 4) s in
        let st : Settled addr rev default_cfg out =
          rw (eq, buf) (accept-Settled addr rev default_cfg r.2 s f nr h kept) in
        let s2 = (eeprom_read chip addr (length default_cfg + 4) out.2).2 in
        let again : load_config chip addr old' default_cfg rev out.2 ≡ (true, out.1, s2) =
          eq' ∙ rw buf' (st.settled s2) in
        (st.success, ap (λ o. o.0) again, ap (λ o. o.1) again)

    -- On a chip that always answers and behaves as a memory, with a heap that never refuses, for a place
    -- that is page-aligned and on the chip: a buffer that is neither of the old revision nor a current
    -- image is replaced by the defaults, and they are on the chip afterwards with their checksum.
    pub load-stale :
        (addr rev : ℕ) (old default_cfg : List ℕ) (s : S)
        → Fits addr (length default_cfg)
        → let size = length default_cfg in
          let buf = window (mem s) addr (size + 4) in
          le_u16 buf ≢ rev
          → (le_u16 buf ≢ 0) ⊎ (software_crc32 (take size buf) ≢ le_u32 (drop size buf))
          → let (ok, cfg, s') = load_config chip addr old default_cfg rev s in
            (ok ≡ true)
            × (cfg ≡ default_cfg)
            × (window (mem s') addr (size + 4) ≡ image default_cfg)
    unfolding accept
    load-stale addr rev old default_cfg s f ne bad =
        let (eq, buf, kept) =
          load_config-eq-accept chip mem good room addr rev old default_cfg s f.on_chip in
        let s1 = (eeprom_read chip addr (length default_cfg + 4) s).2 in
        let w = save_config_lem chip mem good room addr default_cfg s1 f in
        let b = window (mem s) addr (length default_cfg + 4) in
        let size = length default_cfg in
        let new : (le_u16 b == rev) ≡ false = ground arith in
        let stale : ((le_u16 b == 0) && (software_crc32 (take size b) == le_u32 (drop size b)))
            ≡ false =
          ground arith in
        rw (eq, buf, new, stale) (w.0, refl, w.1)
