-- ===== src/LearnMode/Search/Grid.antt =====
-- The nested loops visit one list of points, in order.
use open_trickler_rp2040_con.Prelude.{
  ◌≡◌, refl, sym, ◌∙◌, ap, Bool, true, false, if◌then◌else◌, List, [], ◌∷◌, ◌++◌,
}
use open_trickler_rp2040_con.Float.{Floats, lit, ◌*◌, lt, le}
use open_trickler_rp2040_con.LearnMode.Search.{
  Bounds, Choice, Search, each, land_steps, search_steps, fmin_at, fmax_at, cmax_at, cland_at,
  point, judge, land_loop, coarse_loop, fine_loop, search_grid,
}

-- The lists of all `h x`, one behind the other.
unfoldable pub gather : {A B : Type 0} → List A → (A → List B) → List B
gather [] h = []
gather (x ∷ xs) h = h x ++ gather xs h

each-append :
    {A S : Type 0} (xs ys : List A) (body : A → S → S) (s : S)
    → each (xs ++ ys) body s ≡ each ys body (each xs body s)
unfolding each
each-append [] ys body s = refl
each-append (x ∷ xs) ys body s = each-append xs ys body (body x s)

each-one : {A S : Type 0} (x : A) (body : A → S → S) (s : S) → body x s ≡ each (x ∷ []) body s
unfolding each
each-one x body s = refl

-- A loop whose body runs another over `h x` runs over all of them.
each-gather :
    {A B S : Type 0} (xs : List A) (h : A → List B) (outer : A → S → S) (body : B → S → S)
    → ((x : A) (s : S) → outer x s ≡ each (h x) body s)
    → (s : S) → each xs outer s ≡ each (gather xs h) body s
unfolding each gather
each-gather [] h outer body e s = refl
each-gather (x ∷ xs) h outer body e s =
    each-gather xs h outer body e (outer x s)
    ∙ ap (each (gather xs h) body) (e x s)
    ∙ sym (each-append (h x) (gather xs h) body s)

-- A body that skips, or runs a loop.
each-skip :
    {B S : Type 0} (b : Bool) (xs : List B) (body : B → S → S) (s t : S)
    → t ≡ each xs body s
    → (if b then s else t) ≡ each (if b then [] else xs) body s
unfolding each
each-skip true xs body s t e = refl
each-skip false xs body s t e = e

module _ {F : Type 0} ⦃fl : Floats F⦄ where
  -- The points that are not skipped, innermost loop first.
  unfoldable pub land_points : Bounds F → F → F → F → List (Choice F)
  unfolding gather point
  land_points b fmin fmax cmax = gather land_steps (λ cl.
      let x = point b fmin fmax cmax (cland_at b cmax cl) in
      if le (lit 5 1 * b.target) x.handoff then [] else x ∷ [])

  unfoldable pub coarse_points : Bounds F → F → F → List (Choice F)
  unfolding gather land_points
  coarse_points b fmin fmax = gather search_steps (λ ci.
      let cmax = cmax_at b ci in if lt cmax b.c_motor_min then [] else land_points b fmin fmax cmax)

  unfoldable pub fine_points : Bounds F → F → List (Choice F)
  unfolding gather coarse_points
  fine_points b fmin =
      gather search_steps
        (λ fi. let fmax = fmax_at b fi in if lt fmax fmin then [] else coarse_points b fmin fmax)

  -- The points of the grid: a landing speed of the fine tube, speeds of both tubes that their limits
  -- allow, and a landing speed of the bulk whose handoff is below half the target.
  unfoldable pub grid_points : Bounds F → List (Choice F)
  unfolding gather fine_points
  grid_points b = gather land_steps (λ li. fine_points b (fmin_at b li))

  land_loop-points :
      (b : Bounds F) (fmin fmax cmax : F) (s : Search F)
      → land_loop b fmin fmax cmax s ≡ each (land_points b fmin fmax cmax) (judge b) s
  unfolding land_loop land_points
  land_loop-points b fmin fmax cmax = each-gather land_steps _ _ (judge b) (λ cl s.
      let x = point b fmin fmax cmax (cland_at b cmax cl) in
      each-skip (le (lit 5 1 * b.target) x.handoff) (x ∷ []) (judge b) s (judge b x s)
        (each-one x (judge b) s))

  coarse_loop-points :
      (b : Bounds F) (fmin fmax : F) (s : Search F)
      → coarse_loop b fmin fmax s ≡ each (coarse_points b fmin fmax) (judge b) s
  unfolding coarse_loop coarse_points
  coarse_loop-points b fmin fmax = each-gather search_steps _ _ (judge b) (λ ci s.
      let cmax = cmax_at b ci in
      each-skip (lt cmax b.c_motor_min) (land_points b fmin fmax cmax) (judge b) s
        (land_loop b fmin fmax cmax s) (land_loop-points b fmin fmax cmax s))

  fine_loop-points :
      (b : Bounds F) (fmin : F) (s : Search F)
      → fine_loop b fmin s ≡ each (fine_points b fmin) (judge b) s
  unfolding fine_loop fine_points
  fine_loop-points b fmin = each-gather search_steps _ _ (judge b) (λ fi s.
      let fmax = fmax_at b fi in
      each-skip (lt fmax fmin) (coarse_points b fmin fmax) (judge b) s (coarse_loop b fmin fmax s)
        (coarse_loop-points b fmin fmax s))

  -- The four nested loops are one pass over the list of the grid's points, whatever the search starts
  -- with: each point is judged once, in order, and nothing else is.
  pub search_grid-points :
      (b : Bounds F) (s : Search F) → search_grid b s ≡ each (grid_points b) (judge b) s
  unfolding search_grid grid_points
  search_grid-points b =
      each-gather land_steps _ _ (judge b) (λ li s. fine_loop-points b (fmin_at b li) s)
