-- ===== src/RingBuffer/Queue.antt =====
-- As a queue: a ring that starts empty gives its values back in order, if it never held more than its size.
-- Past that, the window moves and the read index does not.
use Prim.Native.Nat.{◌+◌, ◌-◌, ◌%◌}
use open_trickler_rp2040_con.Prelude.{
  ℕ, zero, suc, ◌≤◌, ◌<◌, ◌≡◌, refl, ap, ap₂, sym, ◌∙◌, false, ◌==◌, List, [], ◌∷◌, length, get_or,
  get_or-set_self, get_or-set_ne, set, arith,
}
use open_trickler_rp2040_con.Float.{Floats, lit}
use open_trickler_rp2040_con.RingBuffer.Ring.{FloatRingBuffer, create, enqueue, dequeue, last}
use open_trickler_rp2040_con.RingBuffer.Window.{
  IsValid, next_lem, slot, create-IsValid, enqueue-IsValid, enqueue_all, enqueue_all-IsValid,
  size-enqueue_all, window,
}

-- Values enqueued in order.
abbrev pub put_all : {F : Type 0} → List F → FloatRingBuffer F → FloatRingBuffer F
put_all [] r = r
put_all (x ∷ xs) r = put_all xs (enqueue x r)

step_ptr : (p n : ℕ) → suc p < n → (p + 1) % n ≡ suc p
step_ptr p n h =
    let inside : (suc p == n) ≡ false = ground arith in next_lem p n (omega arith) ∙ rw inside refl

module _ {F : Type 0} ⦃fl : Floats F⦄ where
  -- The next n values.
  abbrev pub take_all : ℕ → FloatRingBuffer F → List F
  take_all zero r = []
  take_all (suc n) r = (dequeue r).0 ∷ take_all n ((dequeue r).1)

  -- Before the ring is full, values go to the next places, and the others stay.
  put_all-places :
      (xs : List F) (i : ℕ) (d : F) (r : FloatRingBuffer F)
      → IsValid r
      → r.write_ptr + length xs ≤ r.buffer_size
      → let r' = put_all xs r in
        (r'.read_ptr ≡ r.read_ptr)
        × (r'.buffer_size ≡ r.buffer_size)
        × (i < r.write_ptr → get_or r'.container i d ≡ get_or r.container i d)
        × (i < length xs → get_or r'.container (r.write_ptr + i) d ≡ get_or xs i d)
  unfolding enqueue
  put_all-places [] i d r v h = (refl, refl, λ lt. refl, λ lt. absurd (omega arith))
  put_all-places (x ∷ []) i d r v h = (
    refl,
    refl,
    λ lt. get_or-set_ne r.container r.write_ptr i x d (λ e. absurd (omega (arith, e, lt))),
    λ lt.
        let z : i ≡ 0 = omega arith in
        ap (λ k. get_or (set r.container r.write_ptr x) k d) (omega (arith, z))
        ∙ get_or-set_self r.container r.write_ptr x d (omega (arith, v.memory, v.write_lt))
        ∙ ap (λ k. get_or (x ∷ []) k d) (sym z),
  )
  put_all-places (x ∷ y ∷ ys) zero d r v h =
      let r1 = enqueue x r in
      let at = step_ptr r.write_ptr r.buffer_size (omega arith) in
      let v1 = enqueue-IsValid x r v in
      let here = put_all-places (y ∷ ys) r.write_ptr d r1 v1 (omega (arith, at)) in
      let before = put_all-places (y ∷ ys) zero d r1 v1 (omega (arith, at)) in
      (
        here.0,
        here.1,
        λ lt.
            before.2 (omega (arith, at))
            ∙ get_or-set_ne r.container r.write_ptr zero x d (λ e. absurd (omega (arith, e, lt))),
        λ lt.
            ap (λ k. get_or (put_all (y ∷ ys) r1).container k d) (omega arith)
            ∙ here.2 (omega (arith, at))
            ∙ get_or-set_self r.container r.write_ptr x d (omega (arith, v.memory, v.write_lt)),
      )
  put_all-places (x ∷ y ∷ ys) (suc i) d r v h =
      let r1 = enqueue x r in
      let at = step_ptr r.write_ptr r.buffer_size (omega arith) in
      let v1 = enqueue-IsValid x r v in
      let after = put_all-places (y ∷ ys) i d r1 v1 (omega (arith, at)) in
      let before = put_all-places (y ∷ ys) (suc i) d r1 v1 (omega (arith, at)) in
      (
        after.0,
        after.1,
        λ lt.
            before.2 (omega (arith, at))
            ∙ get_or-set_ne r.container r.write_ptr (suc i) x d
                (λ e. absurd (omega (arith, e, lt))),
        λ lt.
            ap (λ k. get_or (put_all (y ∷ ys) r1).container k d) (omega (arith, at))
            ∙ after.3 (omega arith),
      )

  take_all-places :
      (xs : List F) (r : FloatRingBuffer F)
      → r.read_ptr + length xs ≤ r.buffer_size
      → ((i : ℕ)
          → i < length xs
          → get_or r.container (r.read_ptr + i) (lit 0 0) ≡ get_or xs i (lit 0 0))
      → take_all (length xs) r ≡ xs
  unfolding dequeue
  take_all-places [] r h places = refl
  take_all-places (x ∷ []) r h places =
      ap (λ f. f ∷ [])
        (ap (λ k. get_or r.container k (lit 0 0)) (omega arith) ∙ places 0 (omega arith))
  take_all-places (x ∷ y ∷ ys) r h places =
      let at = step_ptr r.read_ptr r.buffer_size (omega arith) in
      let r1 = (dequeue r).1 in
      ap₂ ◌∷◌ (ap (λ k. get_or r.container k (lit 0 0)) (omega arith) ∙ places 0 (omega arith)) (
        take_all-places (y ∷ ys) r1 (omega (arith, at)) (λ i lt.
          ap (λ k. get_or r.container k (lit 0 0)) (omega (arith, at))
          ∙ places (suc i) (omega arith)))

  -- Up to `size` values come out of a new ring in the order they went in, whatever its memory held.
  pub take_all-put_all :
      (xs memory : List F) (size : ℕ)
      → 0 < size
      → length memory ≡ size
      → length xs ≤ size
      → take_all (length xs) (put_all xs (create size memory)) ≡ xs
  unfolding create
  take_all-put_all xs memory size h e fits =
      let r = create size memory in
      let v = create-IsValid size memory h e in
      let p = λ (i : ℕ). put_all-places xs i (lit 0 0) r v (omega (arith, fits)) in
      take_all-places xs (put_all xs r) (omega (arith, (p 0).0, (p 0).1))
        (λ i lt. ap (λ k. get_or (put_all xs r).container (k + i) (lit 0 0)) ((p 0).0) ∙ (p i).3 lt)

  -- `last` reads the oldest value of a full window, not the newest.
  last-oldest :
      (xs : List F) (r : FloatRingBuffer F)
      → IsValid r
      → r.buffer_size ≤ length xs
      → last (enqueue_all xs r) ≡ get_or xs (r.buffer_size - 1) (lit 0 0)
  unfolding last
  last-oldest xs r v h =
      let r' = enqueue_all xs r in
      let at : slot r'.write_ptr r.buffer_size (r.buffer_size - 1) ≡ r'.write_ptr =
        ground (arith, v.positive, (enqueue_all-IsValid xs r v).write_lt, size-enqueue_all xs r) in
      ap (λ p. get_or r'.container p (lit 0 0)) (sym at)
      ∙ window xs (r.buffer_size - 1) (lit 0 0) r v (omega (arith, v.positive))
          (omega (arith, v.positive))
