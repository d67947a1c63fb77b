-- ===== src/Tuner/Window.antt =====
-- The landing error window of learn_tuner.c: window_stats, tuner_margin_sigma and tuner_trim.
use Prim.Native.Nat.{◌-◌}
use open_trickler_rp2040_con.Prelude.{◌||◌, ltb, if◌then◌else◌, List, [], ◌∷◌, take}
use open_trickler_rp2040_con.Float.{Floats, Arith, lit, ◌-◌ as minus, ◌/◌, lt, le, fabs}
use open_trickler_rp2040_con.Tuner.State.{Tuner, err_min_n}

-- One sample of the loop of window_stats, winsorized at the clip.
abbrev pub clipped : {D : Type 0} → Arith D → D → D → D
clipped double clip v =
    let w = if double.lt clip v then clip else v in
    if double.lt w (double.neg clip) then double.neg clip else w

module _ {F : Type 0} ⦃fl : Floats F⦄ where
  open fl use {D, double, widen, narrow}

  -- The loop of window_stats over the samples in use: the sum and the sum of squares.
  unfoldable pub window_sums : D → List F → D → D → D × D
  window_sums clip [] sum sum_sq = (sum, sum_sq)
  window_sums clip (e ∷ errs) sum sum_sq =
      let v = clipped double clip (widen e) in
      window_sums clip errs (double.add sum v) (double.add sum_sq (double.mul v v))

  -- The mean and the standard deviation.
  unfoldable pub window_stats : Tuner F → F → F × F
  unfolding window_sums
  window_stats t bracket =
      let clip = double.mul (widen (lit 20 1)) (widen bracket) in
      let n = double.of_nat t.err_count in
      let (sum, sum_sq) =
        window_sums clip (take t.err_count t.err) (double.lit 0 0) (double.lit 0 0) in
      let m = if ltb 0 t.err_count then double.div sum n else double.lit 0 0 in
      let var =
        if ltb 1 t.err_count
        then double.div (double.sub sum_sq (double.mul (double.mul n m) m))
            (double.of_nat (t.err_count - 1))
        else double.lit 0 0 in
      (narrow m, if double.lt (double.lit 0 0) var then narrow (double.sqrt var) else lit 0 0)

  unfoldable pub tuner_margin_sigma : Tuner F → F → F
  unfolding window_stats
  tuner_margin_sigma t bracket =
      let (mean, sd) = window_stats t bracket in
      let reach = minus bracket (fabs mean) in
      let reach' = if lt reach (lit 0 0) then lit 0 0 else reach in
      if ltb t.err_count err_min_n || le bracket (lit 0 0)
      then lit 0 0
      else if lt sd (lit 1 4)
      then lit 99 0
      else reach' / sd

  unfoldable pub tuner_trim : Tuner F → F
  tuner_trim t = if t.init then t.trim_gr else lit 0 0
