-- ===== src/Eeprom/Config/Tests.antt =====
-- The configuration theorems at a small struct, over a chip that is an address register and a memory.
use Prim.Native.Nat.{◌+◌, ◌*◌, ◌/◌, ◌%◌}
use open_trickler_rp2040_con.Prelude.{
  ℕ, ◌≤◌, ◌≡◌, refl, inl, Bool, true, false, List, [], ◌∷◌, arith,
}
use open_trickler_rp2040_con.Eeprom.Driver.{Chip}
use open_trickler_rp2040_con.Eeprom.Memory.{IsMemory, written, window, window-cong}
use open_trickler_rp2040_con.Eeprom.Config.{le_u16, save_config, load_config}
use open_trickler_rp2040_con.Eeprom.Config.RoundTrip.{Fits, image, load-save}
use open_trickler_rp2040_con.Eeprom.Config.Recovery.{load-load, load-stale}

record Device : Type 0 where
  register : ℕ
  memory : ℕ → ℕ

-- Two bytes set the register; further bytes are stored from there on.
put : List ℕ → Device → Bool × Device
put [] d = (false, d)
put (hi ∷ []) d = (false, d)
put (hi ∷ lo ∷ ds) d =
    let a = hi * 256 + lo in (true, record d { register = a; memory = written d.memory a ds })

abbrev device : Chip Device
device = record {
  i2c_write = put;
  i2c_read = λ n d. (window d.memory d.register n, d);
  busy_wait_us = λ us d. d;
  malloc = λ n d. true;
}

abbrev contents : Device → ℕ → ℕ
contents d = d.memory

address_lem : (a : ℕ) → a ≤ 32768 → a / 256 % 256 * 256 + a % 256 ≡ a
address_lem a h = omega arith

device-IsMemory : IsMemory device contents
unfolding put
device-IsMemory = record {
  page_write = λ a ds s page fit. rw (address_lem a (omega arith)) (refl, λ x. refl);
  read_from = λ a n s fit.
      rw (address_lem a (omega arith)) (window-cong _ _ a n (λ x. ground arith), λ x. ground arith);
}

room : (n : ℕ) (d : Device) → device.malloc n d ≡ true
room n d = refl

abbrev blank : Device
blank = record { register = 0; memory = λ a. 0xff }

abbrev cfg : List ℕ
cfg = 0 ∷ 0 ∷ 7 ∷ 1 ∷ 200 ∷ []

abbrev defaults : List ℕ
defaults = 0 ∷ 0 ∷ 1 ∷ 1 ∷ 1 ∷ []

at_1k : Fits 1024 5
at_1k = record { aligned = refl; on_chip = omega arith }

at_2k : Fits 2048 5
at_2k = record { aligned = refl; on_chip = omega arith }

load-save_example :
    let (saved, s1) = save_config device 1024 cfg blank in
    let (ok, cfg', s2) = load_config device 1024 defaults defaults 5 s1 in
    (saved ≡ true) × (ok ≡ true) × (cfg' ≡ cfg) × ((x : ℕ) → contents s2 x ≡ contents s1 x)
load-save_example =
    load-save device contents device-IsMemory room 1024 5 defaults cfg defaults blank at_1k refl
      (omega arith, refl, refl) (omega arith)

load-load_example :
    let (ok, loaded, s1) = load_config device 1024 cfg defaults 5 blank in
    let (ok', loaded', _) = load_config device 1024 cfg defaults 5 s1 in
    (ok ≡ true) × (ok' ≡ true) × (loaded' ≡ loaded)
load-load_example =
    load-load device contents device-IsMemory room 1024 5 cfg cfg defaults blank at_1k
      (omega arith, refl, refl) (omega arith)

blank_rev : le_u16 (window (contents blank) 1024 9) ≡ 65535
unfolding le_u16
blank_rev = refl

load-stale_example :
    let (ok, loaded, s') = load_config device 1024 cfg defaults 5 blank in
    (ok ≡ true) × (loaded ≡ defaults) × (window (contents s') 1024 9 ≡ image defaults)
load-stale_example =
    load-stale device contents device-IsMemory room 1024 5 cfg defaults blank at_1k
      (omega (arith, blank_rev)) (inl (omega (arith, blank_rev)))
