-- ===== src/Float/Interface.antt =====
-- The operations of float and double arithmetic, as a parameter with no law.
use open_trickler_rp2040_con.Prelude.{ℕ, Bool}
use open_trickler_rp2040_con.Prelude.Int.{ℤ}

-- The operations that both widths have. `lit m k` is the decimal literal m * 10^-k.
pub record Arith (F : Type 0) : Type 0 where
  pub lit : ℕ → ℕ → F
  pub of_nat : ℕ → F
  pub of_int : ℤ → F
  pub neg : F → F
  pub add : F → F → F
  pub sub : F → F → F
  pub mul : F → F → F
  pub div : F → F → F
  pub lt : F → F → Bool
  pub le : F → F → Bool
  pub eq : F → F → Bool
  pub fabs : F → F
  pub sqrt : F → F
  pub pow : F → F → F
  pub log : F → F
  pub fmax : F → F → F
  pub fmin : F → F → F
  pub is_finite : F → Bool
  pub trunc : F → ℕ  -- the conversion to uint32_t, of a value that fits

pub record Floats (F : Type 0) : Type 1 where
  pub single : Arith F
  pub D : Type 0
  pub double : Arith D
  pub widen : F → D
  pub narrow : D → F
