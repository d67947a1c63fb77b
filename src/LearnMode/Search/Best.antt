-- ===== src/LearnMode/Search/Best.antt =====
-- What the search chooses among the points that it judges.
use mathlib.Core.Path.{subst}
use open_trickler_rp2040_con.Prelude.{
  ◌≡◌, refl, sym, ◌∙◌, ap, ◌⊎◌, inl, inr, Bool, true, false, Bool-cases, ◌&&◌, ◌||◌, if-cases,
  if◌then◌else◌, List, [], ◌∷◌, arith,
}
use open_trickler_rp2040_con.Float.{Floats, lit, lt, le}
use open_trickler_rp2040_con.Tuner.Limits.{Irreflexive}
use open_trickler_rp2040_con.LearnMode.Search.{
  Bounds, Choice, Search, each, better, judge, search_grid, no_search, last_resort, choose,
  find_choice,
}
use open_trickler_rp2040_con.LearnMode.Search.Grid.{grid_points, search_grid-points}

unfoldable pub any : {A : Type 0} → (A → Bool) → List A → Bool
any p [] = false
any p (x ∷ xs) = p x || any p xs

-- `x` stands in the list.
abbrev pub Among : {A : Type 0} → A → List A → Type 0
Among x [] = ⊥
Among x (y ∷ ys) = (x ≡ y) ⊎ Among x ys

abbrev pub All : {A : Type 0} → (A → Type 0) → List A → Type 0
All P [] = Unit
All P (x ∷ xs) = P x × All P xs

-- `≤` is transitive.
abbrev pub Transitive : {F : Type 0} → (F → F → Bool) → Type 0
Transitive {F} r = (x y z : F) → r x y ≡ true → r y z ≡ true → r x z ≡ true

and-left : (a b : Bool) → a && b ≡ true → a ≡ true
and-left a b h = ground (arith, h)

pick-holds :
    {A : Type 0} (Q : A → Type 0) (taken found : Bool) {x y : A}
    → (taken ≡ true → Q x)
    → (found ≡ true → Q y)
    → taken || found ≡ true
    → Q (if taken then x else y)
pick-holds Q true found hx hy h = hx refl
pick-holds Q false found hx hy h = hy h

module _ {F : Type 0} ⦃fl : Floats F⦄ where
  abbrev pub meets : Bounds F → Choice F → Bool
  meets b x = le x.total b.goal

  judge-found :
      (b : Bounds F) (x : Choice F) (s : Search F) → (judge b x s).found ≡ s.found || meets b x
  unfolding judge better
  judge-found b x s = ground arith

  each-found :
      (b : Bounds F) (xs : List (Choice F)) (s : Search F)
      → (each xs (judge b) s).found ≡ s.found || any (meets b) xs
  unfolding each any
  each-found b [] s = ground arith
  each-found b (x ∷ xs) s = ground (arith, each-found b xs (judge b x s), judge-found b x s)

  -- Where the search has found a point, its best satisfies `Q`.
  abbrev Chosen : (Choice F → Type 0) → Search F → Type 0
  Chosen Q s = s.found ≡ true → Q s.best

  judge-Chosen :
      (Q : Choice F → Type 0) (b : Bounds F) (x : Choice F) (s : Search F)
      → (meets b x ≡ true → Q x)
      → Chosen Q s
      → Chosen Q (judge b x s)
  unfolding judge
  judge-Chosen Q b x s hx hs =
      pick-holds Q (meets b x && better x s) s.found (λ taken. hx (and-left (meets b x) _ taken)) hs

  each-Chosen :
      (Q : Choice F → Type 0) (b : Bounds F) (xs : List (Choice F)) (s : Search F)
      → ((x : Choice F) → Among x xs → meets b x ≡ true → Q x)
      → Chosen Q s
      → Chosen Q (each xs (judge b) s)
  unfolding each
  each-Chosen Q b [] s hx hs = hs
  each-Chosen Q b (x ∷ xs) s hx hs =
      each-Chosen Q b xs (judge b x s) (λ y m. hx y (inr m))
        (judge-Chosen Q b x s (hx x (inl refl)) hs)

  -- No point of the list is faster than `x`.
  abbrev pub Fastest : Choice F → List (Choice F) → Type 0
  Fastest x = All (λ y. lt y.total x.total ≡ false)

  -- The fallback only ever gives way to a faster point.
  abbrev Descends : Choice F → Choice F → Type 0
  Descends x y = (y ≡ x) ⊎ (lt y.total x.total ≡ true)

  judge-Descends :
      (b : Bounds F) (x : Choice F) (s : Search F) → Descends s.fallback (judge b x s).fallback
  unfolding judge
  judge-Descends b x s =
      if-cases (Descends s.fallback) (lt x.total s.fallback.total) inr (λ _. inl refl)

  Descends-trans :
      Transitive fl.single.lt → (x y z : Choice F) → Descends x y → Descends y z → Descends x z
  Descends-trans trans x y z (inl e) h = subst (λ w. Descends w z) e h
  Descends-trans trans x y z (inr h) (inl e) = inr (ground (arith, h, e))
  Descends-trans trans x y z (inr h) (inr h') = inr (trans z.total y.total x.total h' h)

  each-Descends :
      Transitive fl.single.lt
      → (b : Bounds F) (xs : List (Choice F)) (s : Search F)
      → Descends s.fallback (each xs (judge b) s).fallback
  unfolding each
  each-Descends trans b [] s = inl refl
  each-Descends trans b (x ∷ xs) s =
      let s' = judge b x s in
      Descends-trans trans s.fallback s'.fallback (each xs (judge b) s').fallback
        (judge-Descends b x s) (each-Descends trans b xs s')

  -- What is not faster than a point is not faster than what that gives way to.
  not_faster :
      Transitive fl.single.lt
      → (w x y : Choice F) → lt w.total x.total ≡ false
      → Descends x y
      → lt w.total y.total ≡ false
  not_faster trans w x y h (inl e) = ground (arith, h, e)
  not_faster trans w x y h (inr faster) = ground (arith, h, faster, trans w.total y.total x.total)

  judge-fastest :
      Irreflexive fl
      → (b : Bounds F) (x : Choice F) (s : Search F)
      → lt x.total (judge b x s).fallback.total ≡ false
  unfolding judge
  judge-fastest irr b x s =
      if-cases (λ (y : Choice F). lt x.total y.total ≡ false) (lt x.total s.fallback.total)
        (λ _. irr x.total) (λ slower. slower)

  each-Fastest :
      Irreflexive fl
      → Transitive fl.single.lt
      → (b : Bounds F) (xs : List (Choice F)) (s : Search F)
      → Fastest (each xs (judge b) s).fallback xs
  unfolding each
  each-Fastest irr trans b [] s = tt
  each-Fastest irr trans b (x ∷ xs) s =
      let s' = judge b x s in
      (
        not_faster trans x s'.fallback (each xs (judge b) s').fallback (judge-fastest irr b x s)
            (each-Descends trans b xs s'),
        each-Fastest irr trans b xs s',
      )

  -- The last part of a choice: what the loops chose, unless that is unusable.
  choose-found :
      (b : Bounds F) (s : Search F)
      → s.found ≡ true
      → le (lit 1000000000 0) s.best.total ≡ false
      → choose b s ≡ s.best
  unfolding choose
  choose-found b s h fits = ground (arith, h, fits)

  choose-missed :
      (b : Bounds F) (s : Search F)
      → s.found ≡ false
      → (choose b s ≡ last_resort b)
        ⊎ ((choose b s ≡ s.fallback) × (le (lit 1000000000 0) s.fallback.total ≡ false))
  unfolding choose
  choose-missed b s h = elim (Bool-cases (le (lit 1000000000 0) s.fallback.total)) [
    | inl huge ↦ inl (ground (arith, h, huge))
    | inr fits ↦ inr (ground (arith, h, fits), fits)
  ]

  below_goal :
      Transitive fl.single.le
      → (b : Bounds F) (x : Choice F) → le x.total b.goal ≡ true
      → le (lit 1000000000 0) b.goal ≡ false
      → le (lit 1000000000 0) x.total ≡ false
  below_goal trans b x meets below =
      ground (arith, meets, below, trans (lit 1000000000 0) x.total b.goal)

  either_fallback :
      (b : Bounds F) (x : Choice F) (s : Search F) (xs : List (Choice F)) (y : Choice F)
      → y ≡ (judge b x s).fallback
      → (y ≡ s.fallback) ⊎ Among y (x ∷ xs)
  unfolding judge
  either_fallback b x s xs y e = elim (Bool-cases (lt x.total s.fallback.total)) [
    | inl faster ↦ inr (inl (ground (arith, e, faster)))
    | inr slower ↦ inl (ground (arith, e, slower))
  ]

  -- The fallback stays, or is a point of the list.
  each-fallback :
      (b : Bounds F) (xs : List (Choice F)) (s : Search F)
      → ((each xs (judge b) s).fallback ≡ s.fallback) ⊎ Among (each xs (judge b) s).fallback xs
  unfolding each
  each-fallback b [] s = inl refl
  each-fallback b (x ∷ xs) s = elim (each-fallback b xs (judge b x s)) [
    | inl kept ↦ either_fallback b x s xs _ kept
    | inr m ↦ inr (inr m)
  ]

  -- A point of the grid that makes the goal.
  abbrev pub Meeting : Bounds F → Choice F → Type 0
  Meeting b x = Among x (grid_points b) × (le x.total b.goal ≡ true)

  -- If any point of the grid makes the time goal, the choice is such a point. The floats' `≤` is
  -- transitive, and the goal is below the billion seconds that stand for "no choice".
  pub find_choice-meets :
      Transitive fl.single.le
      → (b : Bounds F) → any (meets b) (grid_points b) ≡ true
      → le (lit 1000000000 0) b.goal ≡ false
      → Meeting b (find_choice b)
  unfolding find_choice
  find_choice-meets trans b some_meets below =
      let s = search_grid b (no_search b) in
      let e = search_grid-points b (no_search b) in
      let found : s.found ≡ true =
        ap (λ t. t.found) e ∙ (each-found b (grid_points b) (no_search b) ∙ some_meets) in
      let chosen : Chosen (Meeting b) s = subst (Chosen (Meeting b)) (sym e) (
        each-Chosen (Meeting b) b (grid_points b) (no_search b) (λ x m h. (m, h))
          (λ h. absurd (ground (arith, h)))) in
      let best = chosen found in
      subst (Meeting b) (sym (choose-found b s found (below_goal trans b s.best best.1 below))) best

  -- If no point of the grid makes the goal, the choice is a fastest point of the grid, or the last
  -- resort. The floats' `<` is irreflexive and transitive, and a billion is at most itself.
  pub find_choice-Fastest :
      Irreflexive fl
      → Transitive fl.single.lt
      → (b : Bounds F) → any (meets b) (grid_points b) ≡ false
      → le {F = F} (lit 1000000000 0) (lit 1000000000 0) ≡ true
      → let x = find_choice b in
        (x ≡ last_resort b) ⊎ (Among x (grid_points b) × Fastest x (grid_points b))
  unfolding find_choice
  find_choice-Fastest irr trans b none_meets same =
      let s = search_grid b (no_search b) in
      let points = grid_points b in
      let t = each points (judge b) (no_search b) in
      let e = search_grid-points b (no_search b) in
      let missed : t.found ≡ false = each-found b points (no_search b) ∙ none_meets in
      subst
        (λ (s : Search F).
          (choose b s ≡ last_resort b) ⊎ (Among (choose b s) points × Fastest (choose b s) points))
        (sym e)
        (elim (choose-missed b t missed) [
          | inl resort ↦ inl resort
          | inr (kept, fits) ↦ inr (
              subst (λ (x : Choice F). Among x points × Fastest x points) (sym kept)
                (elim (each-fallback b points (no_search b)) [
                  | inl first ↦ absurd (ground (arith, first, fits, same))
                  | inr m ↦ (m, each-Fastest irr trans b points (no_search b))
                ]))
        ])
