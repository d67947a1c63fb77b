-- ===== src/LearnMode/Proposal/Goal.antt =====
-- What fit_profile proposes.
use mathlib.Core.Path.{subst}
use open_trickler_rp2040_con.Prelude.{
  ◌≡◌, refl, sym, inl, inr, Bool, true, false, if◌then◌else◌, List, [], ◌∷◌, ◌++◌,
}
use open_trickler_rp2040_con.Float.{Floats, lit, ◌*◌, lt, le}
use open_trickler_rp2040_con.LearnMode.State.{Learner}
use open_trickler_rp2040_con.LearnMode.Search.{
  Bounds, Choice, land_steps, search_steps, fmin_at, fmax_at, cmax_at, cland_at, point, find_choice,
}
use open_trickler_rp2040_con.LearnMode.Search.Grid.{
  gather, land_points, coarse_points, fine_points, grid_points,
}
use open_trickler_rp2040_con.LearnMode.Search.Best.{
  any, Among, All, Transitive, meets, find_choice-meets,
}
use open_trickler_rp2040_con.LearnMode.Proposal.{propose, fit_bounds, fit_profile}

All-append : {A : Type 0} (P : A → Type 0) (xs ys : List A) → All P xs → All P ys → All P (xs ++ ys)
All-append P [] ys hx hy = hy
All-append P (x ∷ xs) ys hx hy = (hx.0, All-append P xs ys hx.1 hy)

All-gather :
    {A B : Type 0} (P : B → Type 0) (xs : List A) (h : A → List B)
    → ((x : A) → All P (h x))
    → All P (gather xs h)
unfolding gather
All-gather P [] h all = tt
All-gather P (x ∷ xs) h all = All-append P (h x) (gather xs h) (all x) (All-gather P xs h all)

All-skip :
    {A : Type 0} (P : A → Type 0) (b : Bool) (xs : List A)
    → (b ≡ false → All P xs)
    → All P (if b then [] else xs)
All-skip P true xs h = tt
All-skip P false xs h = h refl

All-among : {A : Type 0} (P : A → Type 0) (x : A) (xs : List A) → All P xs → Among x xs → P x
All-among P x [] all m = absurd m
All-among P x (y ∷ ys) all (inl e) = subst P (sym e) all.0
All-among P x (y ∷ ys) all (inr m) = All-among P x ys all.1 m

module _ {F : Type 0} ⦃fl : Floats F⦄ where
  open fl use {D}

  -- Half the target is not at or below the handoff, and no tube is asked to run slower than it may.
  abbrev pub Usable : Bounds F → Choice F → Type 0
  Usable b x =
      (le (lit 5 1 * b.target) x.handoff ≡ false)
      × (lt x.c b.c_motor_min ≡ false)
      × (lt x.f x.fmin ≡ false)

  land_points-Usable :
      (b : Bounds F) (fmin fmax cmax : F)
      → lt cmax b.c_motor_min ≡ false
      → lt fmax fmin ≡ false
      → All (Usable b) (land_points b fmin fmax cmax)
  unfolding land_points point
  land_points-Usable b fmin fmax cmax hc hf = All-gather (Usable b) land_steps _ (λ cl.
      let x = point b fmin fmax cmax (cland_at b cmax cl) in
      All-skip (Usable b) (le (lit 5 1 * b.target) x.handoff) (x ∷ [])
        (λ narrow. ((narrow, hc, hf), tt)))

  coarse_points-Usable :
      (b : Bounds F) (fmin fmax : F)
      → lt fmax fmin ≡ false
      → All (Usable b) (coarse_points b fmin fmax)
  unfolding coarse_points
  coarse_points-Usable b fmin fmax hf = All-gather (Usable b) search_steps _ (λ ci.
      All-skip (Usable b) (lt (cmax_at b ci) b.c_motor_min) (land_points b fmin fmax (cmax_at b ci))
        (λ hc. land_points-Usable b fmin fmax (cmax_at b ci) hc hf))

  fine_points-Usable : (b : Bounds F) (fmin : F) → All (Usable b) (fine_points b fmin)
  unfolding fine_points
  fine_points-Usable b fmin = All-gather (Usable b) search_steps _ (λ fi.
      All-skip (Usable b) (lt (fmax_at b fi) fmin) (coarse_points b fmin (fmax_at b fi))
        (λ hf. coarse_points-Usable b fmin (fmax_at b fi) hf))

  grid_points-Usable : (b : Bounds F) → All (Usable b) (grid_points b)
  unfolding grid_points
  grid_points-Usable b =
      All-gather (Usable b) land_steps _ (λ li. fine_points-Usable b (fmin_at b li))

  -- If any point of the search grid makes the time goal, the proposal makes it too, with a handoff that
  -- half of the confirmation target is not at or below (in the floats' `≤`), a bulk speed that is not
  -- below the motor's least, and a top speed of the fine tube that is not below its landing speed. The
  -- floats' `≤` is transitive, and the goal is below the billion seconds that stand for "no choice".
  pub fit_profile-meets :
      Transitive fl.single.le
      → (l : Learner F D) → any (meets (fit_bounds l)) (grid_points (fit_bounds l)) ≡ true
      → le (lit 1000000000 0) (fit_bounds l).goal ≡ false
      → let r = (fit_profile l).result in
        (le r.predicted_total_s (fit_bounds l).goal ≡ true)
        × (le (lit 5 1 * (fit_bounds l).target) r.coarse_stop_threshold ≡ false)
        × (lt r.coarse_max_rps (fit_bounds l).c_motor_min ≡ false)
        × (lt r.fine_max_rps r.fine_min_rps ≡ false)
  unfolding fit_profile propose
  fit_profile-meets trans l some_meets below =
      let b = fit_bounds l in
      let best = find_choice-meets trans b some_meets below in
      let usable =
        All-among (Usable b) (find_choice b) (grid_points b) (grid_points-Usable b) best.0 in
      (best.1, usable.0, usable.1, usable.2)
