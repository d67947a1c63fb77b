-- ===== src/Float/Fixed.antt =====
-- A concrete instance for tests: numbers in steps of 10^-4, as integers, for floats and doubles alike.
use Prim.Native.Nat.{ℕ, zero, suc, ◌+◌, ◌*◌, ◌/◌, ◌^◌}
use open_trickler_rp2040_con.Prelude.{true, false, leb, if◌then◌else◌}
use open_trickler_rp2040_con.Prelude.Int.{
  ℤ, pos, neg, pos_part, neg_part, ◌+ℤ◌, ◌-ℤ◌, ltb_ℤ, leb_ℤ, is_neg,
}
use open_trickler_rp2040_con.Float.Interface.{Arith, Floats}

abbrev pub magnitude : ℤ → ℕ
magnitude z = pos_part z + neg_part z

-- The sign of a product or quotient of the two, put on a magnitude.
abbrev signed : ℤ → ℤ → ℕ → ℤ
signed a b n =
    if is_neg a
    then (if is_neg b then pos n else neg (pos n))
    else (if is_neg b then neg (pos n) else pos n)

-- The integer square root, by bisection from the top bit of a 64-bit range.
isqrt : ℕ → ℕ → ℕ → ℕ
isqrt zero root n = root
isqrt (suc k) root n =
    isqrt k (if leb ((root + 2 ^ k) * (root + 2 ^ k)) n then root + 2 ^ k else root) n

unfoldable pub fixed_arith : Arith ℤ
unfolding ◌+ℤ◌ ◌-ℤ◌ isqrt
fixed_arith = record {
  lit = λ m k. pos (m * 10000 / 10 ^ k);
  of_nat = λ n. pos (n * 10000);
  of_int = λ z. signed z (pos 0) (magnitude z * 10000);
  neg = neg;
  add = ◌+ℤ◌;
  sub = ◌-ℤ◌;
  mul = λ a b. signed a b (magnitude a * magnitude b / 10000);
  div = λ a b. signed a b (magnitude a * 10000 / magnitude b);
  lt = ltb_ℤ;
  le = leb_ℤ;
  eq = λ a b. if leb_ℤ a b then leb_ℤ b a else false;
  fabs = λ z. pos (magnitude z);
  sqrt = λ z. pos (isqrt 32 0 (magnitude z * 10000));
  pow = λ a b. a;
  log = λ a. a;
  fmax = λ a b. if ltb_ℤ a b then b else a;
  fmin = λ a b. if ltb_ℤ b a then b else a;
  is_finite = λ z. true;
  trunc = λ z. pos_part z / 10000;
}

instance abbrev pub fixed : Floats ℤ
fixed = record {
  single = fixed_arith;
  D = ℤ;
  double = fixed_arith;
  widen = λ z. z;
  narrow = λ z. z;
}
