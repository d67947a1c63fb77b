-- ===== src/LearnMode/Search.antt =====
-- The search of fit_profile: four nested loops over a grid of speeds, and the choice among its points.
pub mod Grid
pub mod Best
use open_trickler_rp2040_con.Prelude.{
  ℕ, Bool, true, false, not, ◌&&◌, ◌||◌, if◌then◌else◌, List, [], ◌∷◌,
}
use open_trickler_rp2040_con.Float.{Floats, lit, of_nat, ◌+◌, ◌-◌, ◌*◌, ◌/◌, lt, le, fmaxf}
use open_trickler_rp2040_con.LearnMode.Fit.{Prediction, predict_throw}

-- The constants of the search.
pub record Bounds (F : Type 0) : Type 0 where
  pub target : F
  pub goal : F
  pub coarse_k : F
  pub fine_k : F
  pub coarse_lag_s : F
  pub fine_lag_s : F
  pub dead_time_s : F
  pub coarse_lag_err : F
  pub coarse_margin_mult : F
  pub stop_margin_gr : F
  pub stop_min_gr : F
  pub c_motor_min : F
  pub f_motor_min : F
  pub c_hi : F
  pub f_hi : F
  pub fmin_lo : F
  pub fmin_hi : F
  pub c_land_lo : F

-- A point of the grid with what it costs: the variables `best_...` and `fb_...`.
pub record Choice (F : Type 0) : Type 0 where
  pub c : F
  pub f : F
  pub fmin : F
  pub cland : F
  pub handoff : F
  pub taper : F
  pub ctaper : F
  pub cs : F
  pub fs : F
  pub total : F

pub record Search (F : Type 0) : Type 0 where
  pub best : Choice F
  pub fallback : Choice F
  pub found : Bool

-- A `for` loop over a range.
unfoldable pub each : {A S : Type 0} → List A → (A → S → S) → S → S
each [] body s = s
each (x ∷ xs) body s = each xs body (body x s)

abbrev pub land_steps : List ℕ
land_steps = 0 ∷ 1 ∷ 2 ∷ 3 ∷ 4 ∷ 5 ∷ []

abbrev pub search_steps : List ℕ
search_steps = 1 ∷ 2 ∷ 3 ∷ 4 ∷ 5 ∷ 6 ∷ 7 ∷ 8 ∷ 9 ∷ 10 ∷ 11 ∷ 12 ∷ []

module _ {F : Type 0} ⦃fl : Floats F⦄ where
  -- The speeds, windows and handoff of a point.
  unfoldable pub fmin_at : Bounds F → ℕ → F
  fmin_at b li =
      let v = b.fmin_lo + (b.fmin_hi - b.fmin_lo) * of_nat li / of_nat 5 in
      if lt v b.f_motor_min then b.f_motor_min else v

  abbrev pub fmax_at : Bounds F → ℕ → F
  fmax_at b fi = b.f_hi * of_nat fi / of_nat 12

  abbrev pub cmax_at : Bounds F → ℕ → F
  cmax_at b ci = b.c_hi * of_nat ci / of_nat 12

  unfoldable pub cland_at : Bounds F → F → ℕ → F
  cland_at b cmax cl =
      let v = b.c_land_lo + (cmax - b.c_land_lo) * of_nat cl / of_nat 5 in
      let capped = if lt cmax v then cmax else v in
      if lt capped b.c_motor_min then b.c_motor_min else capped

  abbrev pub taper_at : Bounds F → F → F
  taper_at b fmax = fmaxf (lit 20 2) (lit 30 1 * b.fine_lag_s * (b.fine_k * fmax))

  abbrev pub ctaper_at : Bounds F → F → F
  ctaper_at b cmax = fmaxf (lit 50 2) (lit 30 1 * b.coarse_lag_s * (b.coarse_k * cmax))

  abbrev pub handoff_at : Bounds F → F → F
  handoff_at b cland =
      fmaxf b.stop_min_gr (
        b.coarse_margin_mult * lit 30 1 * (b.coarse_k * cland) * b.coarse_lag_err
        + b.stop_margin_gr)

  -- A point with its predicted times.
  unfoldable pub point : Bounds F → F → F → F → F → Choice F
  unfolding predict_throw
  point b fmin fmax cmax cland =
      let (cs, fs) = predict_throw (record {
        target = b.target;
        coarse_flow = b.coarse_k * cmax;
        coarse_land_flow = b.coarse_k * cland;
        coarse_taper_gr = ctaper_at b cmax;
        fine_flow_max = b.fine_k * fmax;
        fine_flow_min = b.fine_k * fmin;
        fmax_rps = fmax;
        fmin_rps = fmin;
        dead_time_s = b.dead_time_s;
        handoff = handoff_at b cland;
        taper_gr = taper_at b fmax;
      }) in
      record {
        c = cmax;
        f = fmax;
        fmin = fmin;
        cland = cland;
        handoff = handoff_at b cland;
        taper = taper_at b fmax;
        ctaper = ctaper_at b cmax;
        cs = cs;
        fs = fs;
        total = cs + fs;
      }

  -- Whether a point beats the best so far: a tighter handoff, then a slower landing, then time.
  unfoldable pub better : Choice F → Search F → Bool
  better x s =
      not s.found
      || (lt x.handoff (s.best.handoff - lit 1 3)
          || (lt x.handoff (s.best.handoff + lit 1 3)
              && (lt x.fmin (s.best.fmin - lit 1 4)
                  || (lt x.fmin (s.best.fmin + lit 1 4) && lt x.total s.best.total))))

  unfoldable pub judge : Bounds F → Choice F → Search F → Search F
  unfolding better
  judge b x s =
      let taken = le x.total b.goal && better x s in
      record {
        best = if taken then x else s.best;
        fallback = if lt x.total s.fallback.total then x else s.fallback;
        found = taken || s.found;
      }

  unfoldable pub land_loop : Bounds F → F → F → F → Search F → Search F
  unfolding cland_at point judge
  land_loop b fmin fmax cmax = each land_steps (λ cl s.
      let x = point b fmin fmax cmax (cland_at b cmax cl) in
      if le (lit 5 1 * b.target) x.handoff then s else judge b x s)

  unfoldable pub coarse_loop : Bounds F → F → F → Search F → Search F
  unfolding land_loop
  coarse_loop b fmin fmax = each search_steps (λ ci s.
      let cmax = cmax_at b ci in if lt cmax b.c_motor_min then s else land_loop b fmin fmax cmax s)

  unfoldable pub fine_loop : Bounds F → F → Search F → Search F
  unfolding coarse_loop
  fine_loop b fmin =
      each search_steps
        (λ fi s. let fmax = fmax_at b fi in if lt fmax fmin then s else coarse_loop b fmin fmax s)

  unfoldable pub search_grid : Bounds F → Search F → Search F
  unfolding fmin_at fine_loop
  search_grid b = each land_steps (λ li. fine_loop b (fmin_at b li))

  -- Before the loops.
  abbrev pub nothing : Bounds F → Choice F
  nothing b = record {
    c = b.c_motor_min;
    f = b.fmin_lo;
    fmin = b.fmin_lo;
    cland = b.c_land_lo;
    handoff = lit 0 0;
    taper = lit 20 2;
    ctaper = lit 50 2;
    cs = lit 0 0;
    fs = lit 0 0;
    total = lit 1000000000 0;
  }

  abbrev pub no_search : Bounds F → Search F
  no_search b = record { best = nothing b; fallback = nothing b; found = false }

  -- Where no point was usable: the slowest bulk and the narrowest handoff.
  unfoldable pub last_resort : Bounds F → Choice F
  unfolding predict_throw
  last_resort b =
      let f = fmaxf b.fmin_lo (b.f_hi / of_nat 12) in
      let taper = fmaxf (lit 20 2) (lit 30 1 * b.fine_lag_s * b.fine_k * f) in
      let ctaper = fmaxf (lit 50 2) (lit 30 1 * b.coarse_lag_s * b.coarse_k * b.c_motor_min) in
      let handoff = fmaxf b.stop_min_gr (
        b.coarse_margin_mult * lit 30 1 * b.coarse_k * b.c_motor_min * b.coarse_lag_err
        + b.stop_margin_gr) in
      let (cs, fs) = predict_throw (record {
        target = b.target;
        coarse_flow = b.coarse_k * b.c_motor_min;
        coarse_land_flow = b.coarse_k * b.c_motor_min;
        coarse_taper_gr = ctaper;
        fine_flow_max = b.fine_k * f;
        fine_flow_min = b.fine_k * b.fmin_lo;
        fmax_rps = f;
        fmin_rps = b.fmin_lo;
        dead_time_s = b.dead_time_s;
        handoff = handoff;
        taper_gr = taper;
      }) in
      record {
        c = b.c_motor_min;
        f = f;
        fmin = b.fmin_lo;
        cland = b.c_motor_min;
        handoff = handoff;
        taper = taper;
        ctaper = ctaper;
        cs = cs;
        fs = fs;
        total = cs + fs;
      }

  -- The choice behind the loops.
  unfoldable pub choose : Bounds F → Search F → Choice F
  unfolding last_resort
  choose b s =
      let x = if s.found then s.best else s.fallback in
      if le (lit 1000000000 0) x.total then last_resort b else x

  unfoldable pub find_choice : Bounds F → Choice F
  unfolding search_grid choose
  find_choice b = choose b (search_grid b (no_search b))
