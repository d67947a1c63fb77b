-- ===== src/RingBuffer/Tests.antt =====
-- Rings of two and three weights over the fixed-point floats.
use open_trickler_rp2040_con.Prelude.{◌≡◌, refl, List, [], ◌∷◌, get_or, arith}
use open_trickler_rp2040_con.Prelude.Int.{ℤ, pos}
use open_trickler_rp2040_con.Float.{fixed, fixed_arith}
use open_trickler_rp2040_con.RingBuffer.Ring.{FloatRingBuffer, create, enqueue, dequeue, get_mean}
use open_trickler_rp2040_con.RingBuffer.Window.{IsValid, slot, create-IsValid, enqueue_all, window}

-- What malloc returned.
abbrev noise : List ℤ
noise = pos 7 ∷ pos 8 ∷ []

abbrev ring : FloatRingBuffer ℤ
ring = create 2 noise

ring-IsValid : IsValid ring
ring-IsValid = create-IsValid 2 noise (omega arith) refl

-- The newest first.
abbrev weights : List ℤ
weights = pos 30000 ∷ pos 20000 ∷ pos 10000 ∷ []

mean_of_two : get_mean (enqueue_all weights ring) ≡ pos 25000
unfolding enqueue create get_mean fixed_arith
mean_of_two = refl

window_example :
    let r = enqueue_all weights ring in
    get_or r.container (slot r.write_ptr 2 1) (pos 0) ≡ pos 20000
unfolding create
window_example = window weights 1 (pos 0) ring ring-IsValid (omega arith) (omega arith)

-- Past the size the read index stays, so the newest value comes out before the older one.
overrun : (dequeue (enqueue_all weights ring)).0 ≡ pos 30000
unfolding dequeue enqueue create
overrun = refl
