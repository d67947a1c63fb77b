-- ===== src/RingBuffer/Window.antt =====
-- The data holds the last `buffer_size` values, whatever was there before.
use Prim.Native.Nat.{◌+◌, ◌-◌, ◌%◌}
use native.Mathlib.Nat.{mod-eq_of_lt, mod-eq-sub-mod}
use open_trickler_rp2040_con.Prelude.{
  ℕ, zero, suc, ◌≤◌, ◌<◌, ◌≡◌, ◌≢◌, refl, ap, sym, ◌∙◌, ltb, ◌==◌, if◌then◌else◌, List, [], ◌∷◌,
  length, length-set, get_or, get_or-set_self, get_or-set_ne, min, arith, Bool-cases, inl, inr,
}
use open_trickler_rp2040_con.RingBuffer.Ring.{FloatRingBuffer, create, enqueue}

pub record IsValid {F : Type 0} (r : FloatRingBuffer F) : Type 0 where
  pub positive : 0 < r.buffer_size
  pub memory : length r.container ≡ r.buffer_size
  pub read_lt : r.read_ptr < r.buffer_size
  pub write_lt : r.write_ptr < r.buffer_size
  pub count_le : r.count ≤ r.buffer_size

-- One step of an index around a ring of n.
pub next_lem : (p n : ℕ) → p < n → (p + 1) % n ≡ (if suc p == n then 0 else suc p)
next_lem p n h = elim (Bool-cases (suc p == n)) [
  | inl end ↦
      let e : p + 1 ≡ n = ground (arith, end) in
      rw end (
        mod-eq-sub-mod (omega (arith, e))
        ∙ ap (λ k. k % n) (omega (arith, e))
        ∙ mod-eq_of_lt {n = 0} {m = n} (omega arith))
  | inr inside ↦
      let e : p + 1 ≡ suc p = omega arith in
      rw (inside, e) (mod-eq_of_lt (ground (arith, inside, h)))
]

-- Where the j-th newest value stands when the next write goes to p.
abbrev pub slot : ℕ → ℕ → ℕ → ℕ
slot p n j = if ltb j p then p - suc j else p + n - suc j

slot-next :
    (p n j : ℕ)
    → p < n
    → let p' = if suc p == n then 0 else suc p in
      (slot p' n 0 ≡ p) × (suc j < n → (slot p' n (suc j) ≡ slot p n j) × (slot p n j ≢ p))
slot-next p n j h = (ground arith, λ lt. ground arith)

-- The values that are enqueued, the newest first.
abbrev pub enqueue_all : {F : Type 0} → List F → FloatRingBuffer F → FloatRingBuffer F
enqueue_all [] r = r
enqueue_all (x ∷ xs) r = enqueue x (enqueue_all xs r)

module _ {F : Type 0} where
  -- Over at least one float of memory, the constructor gives a valid ring.
  pub create-IsValid :
      (size : ℕ) (memory : List F) → 0 < size → length memory ≡ size → IsValid (create size memory)
  unfolding create
  create-IsValid size memory h e = ground arith

  pub enqueue-IsValid : (x : F) (r : FloatRingBuffer F) → IsValid r → IsValid (enqueue x r)
  unfolding enqueue
  enqueue-IsValid x r v =
      let next = next_lem r.write_ptr r.buffer_size v.write_lt in
      let kept = length-set r.container r.write_ptr x in
      ground (arith, next, kept, v.positive, v.memory, v.read_lt, v.write_lt, v.count_le)

  pub enqueue_all-IsValid :
      (xs : List F) (r : FloatRingBuffer F) → IsValid r → IsValid (enqueue_all xs r)
  enqueue_all-IsValid [] r v = v
  enqueue_all-IsValid (x ∷ xs) r v =
      enqueue-IsValid x (enqueue_all xs r) (enqueue_all-IsValid xs r v)

  pub size-enqueue_all :
      (xs : List F) (r : FloatRingBuffer F) → (enqueue_all xs r).buffer_size ≡ r.buffer_size
  unfolding enqueue
  size-enqueue_all [] r = refl
  size-enqueue_all (x ∷ xs) r = size-enqueue_all xs r

  enqueue-slot :
      (x : F) (j : ℕ) (d : F) (r : FloatRingBuffer F)
      → IsValid r
      → let r' = enqueue x r in
        let n = r.buffer_size in
        (get_or r'.container (slot r'.write_ptr n 0) d ≡ x)
        × (suc j < n
            → get_or r'.container (slot r'.write_ptr n (suc j)) d
              ≡ get_or r.container (slot r.write_ptr n j) d)
  unfolding enqueue
  enqueue-slot x j d r v =
      let s = slot-next r.write_ptr r.buffer_size j v.write_lt in
      rw (next_lem r.write_ptr r.buffer_size v.write_lt) (
        rw (s.0)
            (get_or-set_self r.container r.write_ptr x d (omega (arith, v.memory, v.write_lt))),
        λ lt. rw ((s.1 lt).0) (
            get_or-set_ne r.container r.write_ptr (slot r.write_ptr r.buffer_size j) x d
              (λ e. (s.1 lt).1 (sym e))),
      )

  pub enqueue-count :
      (x : F) (r : FloatRingBuffer F)
      → IsValid r
      → (enqueue x r).count ≡ min (suc r.count) r.buffer_size
  unfolding enqueue
  enqueue-count x r v = ground (arith, v.count_le)

  -- After any values, the data has the last `buffer_size` of them (all, if there are fewer), each at its
  -- place counted back from the write index.
  pub window :
      (xs : List F) (j : ℕ) (d : F) (r : FloatRingBuffer F)
      → IsValid r
      → j < length xs
      → j < r.buffer_size
      → let r' = enqueue_all xs r in
        get_or r'.container (slot r'.write_ptr r.buffer_size j) d ≡ get_or xs j d
  window [] j d r v h lt = absurd (omega arith)
  window (x ∷ xs) zero d r v h lt =
      let r1 = enqueue_all xs r in
      let r2 = enqueue x r1 in
      ap (λ n. get_or r2.container (slot r2.write_ptr n 0) d) (sym (size-enqueue_all xs r))
      ∙ (enqueue-slot x 0 d r1 (enqueue_all-IsValid xs r v)).0
  window (x ∷ xs) (suc j) d r v h lt =
      let r1 = enqueue_all xs r in
      let r2 = enqueue x r1 in
      let same = size-enqueue_all xs r in
      ap (λ n. get_or r2.container (slot r2.write_ptr n (suc j)) d) (sym same)
      ∙ (enqueue-slot x j d r1 (enqueue_all-IsValid xs r v)).1 (omega (arith, same, lt))
      ∙ ap (λ n. get_or r1.container (slot r1.write_ptr n j) d) same
      ∙ window xs j d r v (omega arith) (omega arith)

  -- In a ring that starts empty, the counter is the number of values so far, up to the size; so a caller
  -- that waits for it to reach the size judges a full window.
  enqueue_all-count :
      (xs memory : List F) (size : ℕ)
      → 0 < size
      → length memory ≡ size
      → (enqueue_all xs (create size memory)).count ≡ min (length xs) size
  unfolding create
  enqueue_all-count [] memory size h e = omega arith
  enqueue_all-count (x ∷ xs) memory size h e =
      let r = create size memory in
      let v = create-IsValid size memory h e in
      omega (
        arith,
        enqueue-count x (enqueue_all xs r) (enqueue_all-IsValid xs r v),
        enqueue_all-count xs memory size h e,
        size-enqueue_all xs r,
      )
