-- ===== src/Eeprom/Config/Apart.antt =====
-- Configurations at different places do not disturb each other.
use Prim.Native.Nat.{◌+◌}
use open_trickler_rp2040_con.Prelude.{
  ℕ, zero, suc, ◌≤◌, ◌<◌, ◌≡◌, ◌≢◌, refl, ap₂, ◌∙◌, ◌⊎◌, true, List, ◌∷◌, length, length-append,
  length-take, take, arith,
}
use open_trickler_rp2040_con.Eeprom.Driver.{Chip}
use open_trickler_rp2040_con.Eeprom.Memory.{IsMemory, window, length-window}
use open_trickler_rp2040_con.Eeprom.Crc.{software_crc32}
use open_trickler_rp2040_con.Eeprom.Config.{le_bytes, erase_rev, save_config, accept, load_config}
use open_trickler_rp2040_con.Eeprom.Config.RoundTrip.{
  Fits, NoRev, load-image, save_config_lem, load_config-eq-accept,
}
use open_trickler_rp2040_con.Eeprom.Config.Recovery.{length-erase_rev}

window-cong-in :
    (m m' : ℕ → ℕ) (a n : ℕ)
    → ((x : ℕ) → a ≤ x → x < a + n → m x ≡ m' x)
    → window m a n ≡ window m' a n
window-cong-in m m' a zero h = refl
window-cong-in m m' a (suc n) h =
    ap₂ ◌∷◌ (h a (omega arith) (omega arith))
      (window-cong-in m m' (suc a) n (λ x lo hi. h x (omega arith) (omega arith)))

-- The byte x is outside the n bytes from a on.
abbrev pub Outside : ℕ → ℕ → ℕ → Type 0
Outside a n x = (x < a) ⊎ (a + n ≤ x)

module _ {S : Type 0} (chip : Chip S) (mem : S → ℕ → ℕ) (good : IsMemory chip mem) where
  module _ (room : (n : ℕ) (s : S) → chip.malloc n s ≡ true) where
    save-elsewhere :
        (addr x : ℕ) (cfg : List ℕ) (s : S)
        → Fits addr (length cfg)
        → Outside addr (length cfg + 4) x
        → mem ((save_config chip addr cfg s).1) x ≡ mem s x
    save-elsewhere addr x cfg s f out =
        let w = save_config_lem chip mem good room addr cfg s f in
        let len = length-append cfg (le_bytes (software_crc32 cfg)) in
        ground (arith, w.2 x, len, out)

    accept-elsewhere :
        (addr rev x : ℕ) (default_cfg buf : List ℕ) (s : S)
        → Fits addr (length default_cfg)
        → length buf ≡ length default_cfg + 4
        → Outside addr (length default_cfg + 4) x
        → mem ((accept chip addr default_cfg rev buf s).2) x ≡ mem s x
    unfolding accept
    accept-elsewhere addr rev x default_cfg buf s f len out =
        let size = length default_cfg in
        let legacy = erase_rev (take size buf) in
        let len' : length legacy ≡ size =
          length-erase_rev (take size buf) ∙ omega (arith, length-take size buf) in
        ground (
          arith,
          save-elsewhere addr x default_cfg s f out,
          save-elsewhere addr x legacy s (rw len' f) (rw len' out),
        )

    load-elsewhere :
        (addr rev x : ℕ) (old default_cfg : List ℕ) (s : S)
        → Fits addr (length default_cfg)
        → Outside addr (length default_cfg + 4) x
        → mem ((load_config chip addr old default_cfg rev s).2) x ≡ mem s x
    load-elsewhere addr rev x old default_cfg s f out =
        let (eq, buf, kept) =
          load_config-eq-accept chip mem good room addr rev old default_cfg s f.on_chip in
        let len = length-window (mem s) addr (length default_cfg + 4) in
        rw (eq, buf) (accept-elsewhere addr rev x default_cfg _ _ f len out ∙ kept x)

    -- Loading a configuration at another place, whatever it finds there, leaves a saved one as it was:
    -- the two places do not overlap.
    load-other :
        (addr addr' rev rev' : ℕ) (old old' cfg default_cfg default_cfg' : List ℕ) (s : S)
        → Fits addr (length cfg)
        → Fits addr' (length default_cfg')
        → length default_cfg ≡ length cfg
        → NoRev cfg
        → rev ≢ 0
        → (addr' + (length default_cfg' + 4) ≤ addr) ⊎ (addr + (length cfg + 4) ≤ addr')
        → let s1 = (save_config chip addr cfg s).1 in
          let s2 = (load_config chip addr' old' default_cfg' rev' s1).2 in
          let (ok, loaded, _) = load_config chip addr old default_cfg rev s2 in
          (ok ≡ true) × (loaded ≡ cfg)
    load-other addr addr' rev rev' old old' cfg default_cfg default_cfg' s f f' len nr h apart =
        let w = save_config_lem chip mem good room addr cfg s f in
        let s1 = (save_config chip addr cfg s).1 in
        let s2 = (load_config chip addr' old' default_cfg' rev' s1).2 in
        let same : window (mem s2) addr (length cfg + 4) ≡ window (mem s1) addr (length cfg + 4) =
          window-cong-in (mem s2) (mem s1) addr (length cfg + 4) (λ x lo hi.
            load-elsewhere addr' rev' x old' default_cfg' s1 f' (ground (arith, apart, lo, hi))) in
        let r =
          load-image chip mem good room addr rev old cfg default_cfg s2 f len nr h (same ∙ w.1) in
        (r.0, r.1)
