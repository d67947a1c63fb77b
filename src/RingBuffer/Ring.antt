-- ===== src/RingBuffer/Ring.antt =====
-- The class FloatRingBuffer. The memory that malloc returns is a parameter of the constructor.
use Prim.Native.Nat.{◌+◌ as nat_add, ◌-◌ as nat_sub, ◌%◌}
use open_trickler_rp2040_con.Prelude.{
  ℕ, Bool, true, false, ltb, if◌then◌else◌, List, [], ◌∷◌, get_or, set,
}
use open_trickler_rp2040_con.Float.{Floats, lit, ◌-◌}

pub record FloatRingBuffer (F : Type 0) : Type 0 where
  pub read_ptr : ℕ
  pub write_ptr : ℕ
  pub count : ℕ
  pub mux : Bool
  pub is_over_flow : Bool
  pub buffer_size : ℕ
  pub container : List F

module _ {F : Type 0} where
  -- `reset`, which leaves the data.
  unfoldable pub reset : FloatRingBuffer F → FloatRingBuffer F
  reset r = record r { read_ptr = 0; write_ptr = 0; count = 0; mux = false; is_over_flow = false }

  -- The constructor, over the `size` floats that malloc returns.
  unfoldable pub create : ℕ → List F → FloatRingBuffer F
  unfolding reset
  create size memory = reset (record {
    read_ptr = 0;
    write_ptr = 0;
    count = 0;
    mux = false;
    is_over_flow = false;
    buffer_size = size;
    container = memory;
  })

  unfoldable pub lock : FloatRingBuffer F → FloatRingBuffer F
  lock r = record r { mux = true }

  unfoldable pub unlock : FloatRingBuffer F → FloatRingBuffer F
  unlock r = record r { mux = false }

  unfoldable pub clear_over_flow : FloatRingBuffer F → FloatRingBuffer F
  clear_over_flow r = record r { is_over_flow = false }

  unfoldable pub enqueue : F → FloatRingBuffer F → FloatRingBuffer F
  enqueue in_value r = record r {
    container = set r.container r.write_ptr in_value;
    write_ptr = nat_add r.write_ptr 1 % r.buffer_size;
    count = if ltb r.count r.buffer_size then nat_add r.count 1 else r.count;
  }

module _ {F : Type 0} ⦃fl : Floats F⦄ where
  open fl use {D, double, widen, narrow}

  unfoldable pub dequeue : FloatRingBuffer F → F × FloatRingBuffer F
  dequeue r = (
    get_or r.container r.read_ptr (lit 0 0),
    record r {
      read_ptr = nat_add r.read_ptr 1 % r.buffer_size;
      count = if ltb 0 r.count then nat_sub r.count 1 else r.count;
    },
  )

  unfoldable pub first : FloatRingBuffer F → F
  first r = get_or r.container r.read_ptr (lit 0 0)

  unfoldable pub last : FloatRingBuffer F → F
  last r = get_or r.container r.write_ptr (lit 0 0)

  -- The loop of getSum.
  abbrev pub sum_from : D → List F → D
  sum_from sum [] = sum
  sum_from sum (x ∷ xs) = sum_from (double.add sum (widen x)) xs

  -- All `buffer_size` floats of the data.
  unfoldable pub get_sum : FloatRingBuffer F → D
  get_sum r = sum_from (double.lit 0 0) r.container

  unfoldable pub get_mean : FloatRingBuffer F → F
  unfolding get_sum
  get_mean r = narrow (double.div (get_sum r) (double.of_nat r.buffer_size))

  -- The loop of getSd.
  abbrev pub squares_from : F → D → List F → D
  squares_from mean sum [] = sum
  squares_from mean sum (x ∷ xs) =
      squares_from mean (double.add sum (double.pow (widen (x - mean)) (double.lit 2 0))) xs

  unfoldable pub get_sd : FloatRingBuffer F → F
  unfolding get_mean
  get_sd r =
      let sum = squares_from (get_mean r) (double.lit 0 0) r.container in
      narrow (double.sqrt (double.div sum (double.of_nat r.buffer_size)))
