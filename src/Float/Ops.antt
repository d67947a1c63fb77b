-- ===== src/Float/Ops.antt =====
-- Operators and tests on floats, for any `Floats F` in scope.
use open_trickler_rp2040_con.Prelude.{ℕ, Bool}
use open_trickler_rp2040_con.Prelude.Int.{ℤ}
use open_trickler_rp2040_con.Float.Interface.{Floats}

infixl 65 ◌+◌ ◌-◌
infixl 70 ◌*◌ ◌/◌
module _ {F : Type 0} ⦃fl : Floats F⦄ where
  abbrev pub lit : ℕ → ℕ → F
  lit = fl.single.lit

  abbrev pub of_nat : ℕ → F
  of_nat = fl.single.of_nat

  abbrev pub of_int : ℤ → F
  of_int = fl.single.of_int

  abbrev pub neg : F → F
  neg = fl.single.neg

  abbrev pub ◌+◌ : F → F → F
  ◌+◌ = fl.single.add

  abbrev pub ◌-◌ : F → F → F
  ◌-◌ = fl.single.sub

  abbrev pub ◌*◌ : F → F → F
  ◌*◌ = fl.single.mul

  abbrev pub ◌/◌ : F → F → F
  ◌/◌ = fl.single.div

  abbrev pub lt : F → F → Bool
  lt = fl.single.lt

  abbrev pub le : F → F → Bool
  le = fl.single.le

  abbrev pub eq : F → F → Bool
  eq = fl.single.eq

  abbrev pub fabs : F → F
  fabs = fl.single.fabs

  abbrev pub sqrtf : F → F
  sqrtf = fl.single.sqrt

  abbrev pub powf : F → F → F
  powf = fl.single.pow

  abbrev pub logf : F → F
  logf = fl.single.log

  abbrev pub fmaxf : F → F → F
  fmaxf = fl.single.fmax

  abbrev pub fminf : F → F → F
  fminf = fl.single.fmin

  abbrev pub is_finite : F → Bool
  is_finite = fl.single.is_finite

  abbrev pub trunc : F → ℕ
  trunc = fl.single.trunc
