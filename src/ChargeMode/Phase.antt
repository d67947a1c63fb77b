-- ===== src/ChargeMode/Phase.antt =====
-- The shape of a phase: its loop over the scale, and what it leaves.
pub mod Rules
use open_trickler_rp2040_con.Prelude.{Option, none, some, List, [], ◌∷◌}
use open_trickler_rp2040_con.Profile.{Profile}
use open_trickler_rp2040_con.ChargeMode.World.{Machine}

-- One pass of a loop: around again, or out.
pub data Poll (S R : Type 0) : Type 0 where
  again : S → Poll S R
  out : R → Poll S R

abbrev pub go_round : {S R : Type 0} → (S → Option R) → Poll S R → Option R
go_round go (again s) = go s
go_round go (out r) = some r

-- A loop over its passes; `none` where they end before it does.
unfoldable pub poll : {P S R : Type 0} → (P → S → Poll S R) → List P → S → Option R
poll step [] s = none
poll step (p ∷ ps) s = go_round (poll step ps) (step p s)

-- A phase still waits, has left the charge mode, or goes on with a value.
pub data Outcome (M A : Type 0) : Type 0 where
  waiting : Outcome M A
  left : M → Outcome M A
  done : A → M → Outcome M A

-- A routine over a state `M`, and the charge mode's, over its machine.
abbrev pub Routine : Type 0 → Type 0 → Type 0
Routine M A = M → Outcome M A

abbrev pub Phase : Type 0 → Type 0 → Type 0 → Type 0
Phase F D A = Routine (Machine F D) A

-- A phase over the selected profile. Nothing is said of an index out of range.
abbrev pub with_profile :
    {F M A : Type 0} → (Profile F → Routine M A) → Option (Profile F) → Routine M A
with_profile k none m = waiting
with_profile k (some p) m = k p m

module _ {M : Type 0} where
  infixl 5 ◌>>=◌
  abbrev pub pure : {A : Type 0} → A → Routine M A
  pure a m = done a m

  abbrev pub modify : (M → M) → Routine M Unit
  modify f m = done tt (f m)

  abbrev pub next : {A B : Type 0} → (A → Routine M B) → Outcome M A → Outcome M B
  next k waiting = waiting
  next k (left m) = left m
  next k (done a m) = k a m

  abbrev pub ◌>>=◌ : {A B : Type 0} → Routine M A → (A → Routine M B) → Routine M B
  ◌>>=◌ x k m = next k (x m)
