-- ===== src/ChargeMode/Phase/Rules.antt =====
-- The rules of loops and phases: when a loop ends, what its end satisfies, and phases in sequence.
use open_trickler_rp2040_con.Prelude.{
  ◌≡◌, refl, Bool, true, false, Option, none, some, List, [], ◌∷◌, ◌++◌, arith,
}
use open_trickler_rp2040_con.Profile.{Profile}
use open_trickler_rp2040_con.ChargeMode.Phase.{
  Poll, again, out, go_round, poll, Outcome, waiting, left, done, Routine, next, with_profile,
}

abbrev pub leaves : {S R : Type 0} → Poll S R → Bool
leaves (again s) = false
leaves (out r) = true

abbrev pub has_ended : {R : Type 0} → Option R → Bool
has_ended none = false
has_ended (some r) = true

abbrev pub is_waiting : {M A : Type 0} → Outcome M A → Bool
is_waiting waiting = true
is_waiting (left m) = false
is_waiting (done a m) = false

-- What a result satisfies, if there is one.
abbrev pub Result : {R : Type 0} → (R → Type 0) → Option R → Type 0
Result Q none = Unit
Result Q (some r) = Q r

module _ {S R : Type 0} where
  abbrev pub Around : (S → Type 0) → (R → Type 0) → Poll S R → Type 0
  Around I Q (again s) = I s
  Around I Q (out r) = Q r

  go_round-Result :
      (I : S → Type 0) (Q : R → Type 0) (go : S → Option R) (x : Poll S R)
      → ((s : S) → I s → Result Q (go s))
      → Around I Q x
      → Result Q (go_round go x)
  go_round-Result I Q go (again s) h k = h s k
  go_round-Result I Q go (out r) h k = k

  go_round-leaves :
      (go : S → Option R) (x : Poll S R) → leaves x ≡ true → has_ended (go_round go x) ≡ true
  go_round-leaves go (out r) h = refl
  go_round-leaves go (again s) h = ground (arith, h)

  go_round-ends :
      (go : S → Option R) (x : Poll S R)
      → ((s : S) → has_ended (go s) ≡ true)
      → has_ended (go_round go x) ≡ true
  go_round-ends go (out r) h = refl
  go_round-ends go (again s) h = h s

module _ {P S R : Type 0} where
  -- A loop ends at a pass that leaves it from every state, or before.
  pub poll-leaves :
      (step : P → S → Poll S R) (before after : List P) (p : P) (s : S)
      → ((s' : S) → leaves (step p s') ≡ true)
      → has_ended (poll step (before ++ p ∷ after) s) ≡ true
  unfolding poll
  poll-leaves step [] after p s h = go_round-leaves (poll step after) (step p s) (h s)
  poll-leaves step (q ∷ qs) after p s h =
      go_round-ends (poll step (qs ++ p ∷ after)) (step q s)
        (λ s'. poll-leaves step qs after p s' h)

  -- What every pass keeps, or leaves at the end, holds of the loop.
  pub poll-Result :
      (I : S → Type 0) (Q : R → Type 0) (step : P → S → Poll S R)
      → ((p : P) (s : S) → I s → Around I Q (step p s))
      → (ps : List P) (s : S) → I s
      → Result Q (poll step ps s)
  unfolding poll
  poll-Result I Q step keeps [] s h = tt
  poll-Result I Q step keeps (p ∷ ps) s h =
      go_round-Result I Q (poll step ps) (step p s) (poll-Result I Q step keeps ps) (keeps p s h)

module _ {M : Type 0} where
  -- What a routine leaves: `E` where it returned early, `K` where it goes on.
  abbrev pub Ends : {A : Type 0} → (M → Type 0) → (A → M → Type 0) → Outcome M A → Type 0
  Ends E K waiting = Unit
  Ends E K (left m) = E m
  Ends E K (done a m) = K a m

  pub next-Ends :
      {A B : Type 0} (E : M → Type 0) (K : A → M → Type 0) (K' : B → M → Type 0)
      (k : A → Routine M B) (x : Outcome M A)
      → Ends E K x
      → ((a : A) (m : M) → K a m → Ends E K' (k a m))
      → Ends E K' (next k x)
  next-Ends E K K' k waiting h then_k = tt
  next-Ends E K K' k (left m) h then_k = h
  next-Ends E K K' k (done a m) h then_k = then_k a m h

  pub with_profile-Ends :
      {F A : Type 0} (E : M → Type 0) (K : A → M → Type 0) (k : Profile F → Routine M A)
      (o : Option (Profile F)) (m : M)
      → ((p : Profile F) → Ends E K (k p m))
      → Ends E K (with_profile k o m)
  with_profile-Ends E K k none m h = tt
  with_profile-Ends E K k (some p) m h = h p
