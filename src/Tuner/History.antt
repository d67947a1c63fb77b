-- ===== src/Tuner/History.antt =====
-- The miss history of learn_tuner.c: `miss_bits` is a shift register of the last 32 throws, and
-- recent_misses counts the misses among the newest of them.
use Prim.Native.Nat.{◌+◌, ◌*◌, ◌/◌, ◌%◌, ◌^◌}
use native.Mathlib.Nat.{
  zero-mod, mod-lt, mod-eq_of_lt, mod-add-div', add-mul-mod_self_right, pow-suc, one-le-pow,
}
use open_trickler_rp2040_con.Prelude.{
  ℕ, zero, suc, ◌≤◌, ◌<◌, ◌≡◌, refl, ap, Bool, true, false, not, if◌then◌else◌, List, [], ◌∷◌,
  length, take, length-take, ◌∙◌, leb, Bool-cases, inl, inr, count_true, arith,
}
use open_trickler_rp2040_con.Float.{Floats}
use open_trickler_rp2040_con.Tuner.State.{Env, Obs, Tuner}
use open_trickler_rp2040_con.Tuner.Arm.{popcount, masked_misses, recent_misses}
use open_trickler_rp2040_con.Tuner.Observe.{is_pass, record_throw}

-- The register that holds the flags, the newest in bit 0.
abbrev pub bits_of : List Bool → ℕ
bits_of [] = 0
bits_of (b ∷ bs) = bits_of bs * 2 + (if b then 1 else 0)

bits_of-zero : (bs : List Bool) → bits_of bs ≡ 0 → count_true bs ≡ 0
bits_of-zero [] h = refl
bits_of-zero (true ∷ bs) h = absurd (omega arith)
bits_of-zero (false ∷ bs) h = bits_of-zero bs (omega arith)

-- The loop reads the flags off and has rounds enough for all of them.
popcount-bits_of :
    (fuel : ℕ) (bs : List Bool) (c : ℕ)
    → length bs ≤ fuel
    → popcount fuel (bits_of bs) c ≡ c + count_true bs
unfolding popcount
popcount-bits_of zero [] c h = omega arith
popcount-bits_of zero (b ∷ bs) c h = absurd (omega arith)
popcount-bits_of (suc fuel) [] c h = omega arith
popcount-bits_of (suc fuel) (true ∷ bs) c h =
    rw (half_odd, odd_bit) (ground (arith, popcount-bits_of fuel bs (c + 1)))
  where
    half_odd : (bits_of bs * 2 + 1) / 2 ≡ bits_of bs
    half_odd = omega arith

    odd_bit : (bits_of bs * 2 + 1) % 2 ≡ 1
    odd_bit = omega arith
popcount-bits_of (suc fuel) (false ∷ bs) c h =
    rw (half_even, even_bit) (ground (arith, bits_of-zero bs, popcount-bits_of fuel bs (c + 0)))
  where
    half_even : (bits_of bs * 2 + 0) / 2 ≡ bits_of bs
    half_even = omega arith

    even_bit : (bits_of bs * 2 + 0) % 2 ≡ 0
    even_bit = omega arith

mod_double : (x b m : ℕ) → b < 2 → 0 < m → (x * 2 + b) % (m * 2) ≡ x % m * 2 + b
mod_double x b m hb hm =
    ap (λ k. k % (m * 2)) regroup
    ∙ add-mul-mod_self_right (x % m * 2 + b) (x / m) (m * 2)
    ∙ mod-eq_of_lt (omega (arith, mod-lt x hm))
  where
    regroup : x * 2 + b ≡ x % m * 2 + b + x / m * (m * 2)
    regroup = omega (arith, mod-add-div' x m)

-- A mask of n bits keeps the newest n flags.
mod-bits_of : (n : ℕ) (bs : List Bool) → bits_of bs % 2 ^ n ≡ bits_of (take n bs)
mod-bits_of zero bs = omega arith
mod-bits_of (suc n) [] = zero-mod (2 ^ suc n)
mod-bits_of (suc n) (b ∷ bs) = rw pow-suc (
    mod_double (bits_of bs) (if b then 1 else 0) (2 ^ n) (ground arith)
      (one-le-pow n 2 (omega arith))
    ∙ ap (λ k. k * 2 + (if b then 1 else 0)) (mod-bits_of n bs))

length-take_le : (n : ℕ) (bs : List Bool) → length (take n bs) ≤ n
length-take_le n bs = omega (arith, length-take n bs)

take_all : (n : ℕ) (bs : List Bool) → length bs ≤ n → take n bs ≡ bs
take_all zero [] h = refl
take_all zero (b ∷ bs) h = absurd (omega arith)
take_all (suc n) [] h = refl
take_all (suc n) (b ∷ bs) h = ap (λ l. b ∷ l) (take_all n bs (omega arith))

take-take : (n m : ℕ) (bs : List Bool) → n ≤ m → take n (take m bs) ≡ take n bs
take-take zero m bs h = refl
take-take (suc n) zero bs h = absurd (omega arith)
take-take (suc n) (suc m) [] h = refl
take-take (suc n) (suc m) (b ∷ bs) h = ap (λ l. b ∷ l) (take-take n m bs (omega arith))

masked_misses-bits_of :
    (n : ℕ) (bs : List Bool)
    → n ≤ 32
    → masked_misses (bits_of (take 32 bs)) n ≡ count_true (take n bs)
unfolding masked_misses
masked_misses-bits_of n bs h = elim (Bool-cases (leb 32 n)) [
  | inl wide ↦
      let e : n ≡ 32 = ground arith in
      rw wide (popcount-bits_of 32 (take 32 bs) 0 (length-take_le 32 bs) ∙ rw e (omega arith))
  | inr small ↦
      rw (small, mod-bits_of n (take 32 bs), take-take n 32 bs h)
        (popcount-bits_of 32 (take n bs) 0 (omega (arith, length-take_le n bs)) ∙ omega arith)
]

push-bits_of :
    (bs : List Bool) (b : Bool)
    → bits_of (take 32 bs) * 2 % 2 ^ 32 + (if b then 1 else 0) ≡ bits_of (take 32 (b ∷ bs))
push-bits_of bs b = ap (λ k. k + (if b then 1 else 0)) (omega (arith, shifted, kept))
  where
    shifted : (bits_of (take 32 bs) * 2 + 0) % (2 ^ 31 * 2) ≡ bits_of (take 32 bs) % 2 ^ 31 * 2 + 0
    shifted = mod_double (bits_of (take 32 bs)) 0 (2 ^ 31) (omega arith) (omega arith)

    kept : bits_of (take 32 bs) % 2 ^ 31 ≡ bits_of (take 31 bs)
    kept = mod-bits_of 31 (take 32 bs) ∙ ap bits_of (take-take 31 32 bs (omega arith))

module _ {F : Type 0} ⦃fl : Floats F⦄ where
  miss_bits-record_throw :
      (t : Tuner F) (env : Env F) (obs : Obs F)
      → (record_throw t env obs).miss_bits
        ≡ t.miss_bits * 2 % 2 ^ 32 + (if not (is_pass obs.result) then 1 else 0)
  unfolding record_throw
  miss_bits-record_throw t env obs = ground arith

  -- If the register holds the misses of the last throws (at most 32, newest first), then after one more
  -- throw it holds that throw's as well, and recent_misses counts the misses among the last n throws,
  -- for every n up to 32.
  recent_misses_lem :
      (t : Tuner F) (env : Env F) (obs : Obs F) (bs : List Bool) (n : ℕ)
      → t.miss_bits ≡ bits_of (take 32 bs)
      → n ≤ 32
      → let bs' = not (is_pass obs.result) ∷ bs in
        ((record_throw t env obs).miss_bits ≡ bits_of (take 32 bs'))
        × (recent_misses (record_throw t env obs) n ≡ count_true (take n bs'))
  unfolding recent_misses
  recent_misses_lem t env obs bs n h hn =
      let b = not (is_pass obs.result) in
      let held = miss_bits-record_throw t env obs ∙ rw h (push-bits_of bs b) in
      (held, rw held (masked_misses-bits_of n (b ∷ bs) hn))
