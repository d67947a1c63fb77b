-- ===== src/LearnMode/Fit.antt =====
-- What fit_profile makes of the throws: the flow per revolution, the lags, and a throw's predicted time.
use Prim.Native.Nat.{◌+◌ as nat_add, ◌-◌ as nat_sub}
use open_trickler_rp2040_con.Prelude.{ℕ, Bool, true, false, ◌&&◌, ltb, if◌then◌else◌, List, [], ◌∷◌}
use open_trickler_rp2040_con.Float.{Floats, lit, ◌+◌, ◌-◌, ◌*◌, ◌/◌, lt, le, fmaxf, fminf, logf}
use open_trickler_rp2040_con.LearnMode.State.{LearnThrow}

-- The sums of fit_flow_per_rps.
pub record FlowSums (D : Type 0) : Type 0 where
  pub num : D
  pub den : D

-- A running sum, its squares, and how many.
pub record Sums (D : Type 0) : Type 0 where
  pub sum : D
  pub sum_sq : D
  pub count : ℕ

-- The sums of lag_stats: of all lags, of each phase's, and of the dead times.
pub record LagSums (D : Type 0) : Type 0 where
  pub all : Sums D
  pub coarse : Sums D
  pub fine : Sums D
  pub dead : Sums D

-- What lag_stats hands back.
pub record LagStats (F : Type 0) : Type 0 where
  pub mean : F
  pub sd : F
  pub coarse_mean : F
  pub fine_mean : F
  pub coarse_sd : F
  pub fine_sd : F
  pub dead : F

-- The arguments of predict_throw.
pub record Prediction (F : Type 0) : Type 0 where
  pub target : F
  pub coarse_flow : F
  pub coarse_land_flow : F
  pub coarse_taper_gr : F
  pub fine_flow_max : F
  pub fine_flow_min : F
  pub fmax_rps : F
  pub fmin_rps : F
  pub dead_time_s : F
  pub handoff : F
  pub taper_gr : F

module _ {F : Type 0} ⦃fl : Floats F⦄ where
  open fl use {D, double, widen, narrow}

  unfoldable pub add_flows : List (LearnThrow F) → FlowSums D → FlowSums D
  add_flows [] s = s
  add_flows (t ∷ ts) s =
      let speed = widen t.speed_rps in
      add_flows ts (
        if le t.time_s (lit 0 0) then s else record {
          num = double.add s.num (double.mul (widen t.flow_gps) speed);
          den = double.add s.den (double.mul speed speed);
        })

  -- Least squares through the origin.
  unfoldable pub fit_flow_per_rps : List (LearnThrow F) → F
  unfolding add_flows
  fit_flow_per_rps ts =
      let zero_d = double.lit 0 0 in
      let s = add_flows ts (record { num = zero_d; den = zero_d }) in
      if double.lt zero_d s.den then narrow (double.div s.num s.den) else lit 0 0

  unfoldable pub sample_sd : Sums D → F
  sample_sd s =
      let n = double.of_nat s.count in
      let mean = double.div s.sum n in
      let var =
        double.div (double.sub s.sum_sq (double.mul (double.mul n mean) mean))
          (double.of_nat (nat_sub s.count 1)) in
      if ltb s.count 2
      then lit 0 0
      else if double.lt (double.lit 0 0) var
      then narrow (double.sqrt var)
      else lit 0 0

  abbrev pub mean_of : Sums D → F
  mean_of s = if ltb 0 s.count then narrow (double.div s.sum (double.of_nat s.count)) else lit 0 0

  unfoldable pub add_value : F → Sums D → Sums D
  add_value x s = record {
    sum = double.add s.sum (widen x);
    sum_sq = double.add s.sum_sq (double.mul (widen x) (widen x));
    count = nat_add s.count 1;
  }

  -- One throw's part in the sums; `is_coarse` is the phase.
  unfoldable pub add_lag : Bool → LearnThrow F → LagSums D → LagSums D
  unfolding add_value
  add_lag is_coarse t s = if le t.lag_s (lit 0 0) then s else record {
    all = add_value t.lag_s s.all;
    coarse = if is_coarse then add_value t.lag_s s.coarse else s.coarse;
    fine = if is_coarse then s.fine else add_value t.lag_s s.fine;
    dead = if lt (lit 0 0) t.dead_time_s then add_value t.dead_time_s s.dead else s.dead;
  }

  unfoldable pub add_lags : Bool → List (LearnThrow F) → LagSums D → LagSums D
  unfolding add_lag
  add_lags is_coarse [] s = s
  add_lags is_coarse (t ∷ ts) s = add_lags is_coarse ts (add_lag is_coarse t s)

  unfoldable pub lag_stats : List (LearnThrow F) → List (LearnThrow F) → LagStats F
  unfolding add_lags sample_sd
  lag_stats coarse_throws fine_throws =
      let none : Sums D = record { sum = double.lit 0 0; sum_sq = double.lit 0 0; count = 0 } in
      let none_yet : LagSums D = record { all = none; coarse = none; fine = none; dead = none } in
      let s = add_lags false fine_throws (add_lags true coarse_throws none_yet) in
      record {
        mean = mean_of s.all;
        sd = sample_sd s.all;
        coarse_mean = mean_of s.coarse;
        fine_mean = mean_of s.fine;
        coarse_sd = sample_sd s.coarse;
        fine_sd = sample_sd s.fine;
        dead = mean_of s.dead;
      }

  -- The bulk: flat out to the window, then the ramp down to the landing speed.
  unfoldable pub predict_coarse : Prediction F → F
  predict_coarse p =
      let bulk_gr = fmaxf (lit 0 0) (p.target - p.handoff) in
      let window = fminf bulk_gr p.coarse_taper_gr in
      let flat = p.dead_time_s + (bulk_gr - window) / (p.coarse_flow + p.fine_flow_max) in
      let a = p.coarse_flow / p.coarse_taper_gr in
      let e_land = fminf window (p.coarse_taper_gr * (p.coarse_land_flow / p.coarse_flow)) in
      let fa = p.fine_flow_max / a in
      let ramped =
        if lt e_land window then flat + logf ((window + fa) / (e_land + fa)) / a else flat in
      let land_rate = p.coarse_land_flow + p.fine_flow_max in
      if lt (lit 0 0) p.coarse_flow && lt (lit 0 0) p.coarse_taper_gr
      then ramped + (if lt (lit 0 0) land_rate then e_land / land_rate else lit 9990 1)
      else lit 9990 1

  -- The fine tube: full speed to the window, then an exponential approach to the landing speed.
  unfoldable pub predict_fine : Prediction F → F
  predict_fine p =
      let full_gr = fmaxf (lit 0 0) (p.handoff - p.taper_gr) in
      let taper_run = fminf p.handoff p.taper_gr in
      let flat = full_gr / p.fine_flow_max in
      let tau = p.taper_gr / p.fine_flow_max in
      let e_switch =
        if lt (lit 0 0) p.fmax_rps then p.taper_gr * p.fmin_rps / p.fmax_rps else taper_run in
      let tapered =
        if lt e_switch taper_run && lt (lit 0 0) e_switch
        then flat + tau * logf (taper_run / e_switch) + e_switch / p.fine_flow_min
        else flat + taper_run / p.fine_flow_min in
      (if lt (lit 0 0) p.fine_flow_max && lt (lit 0 0) p.fine_flow_min then tapered else lit 9990 1)
      + lit 50 2

  -- The times of the two phases.
  unfoldable pub predict_throw : Prediction F → F × F
  unfolding predict_coarse predict_fine
  predict_throw p = (predict_coarse p, predict_fine p)
