-- ===== src/ChargeMode/Charge/Stop.antt =====
-- When and how the charge loop ends: by the readings, the button and the clock alone.
use open_trickler_rp2040_con.Prelude.{
  ℕ, ◌≡◌, refl, ap, ◌∙◌, inl, inr, Bool, true, false, leb, if◌then◌else◌, Option, none, some, List,
  [], ◌∷◌, ◌++◌, ◌&&◌, arith, Bool-cases,
}
use open_trickler_rp2040_con.Float.{Floats, lit, ◌-◌, lt}
use open_trickler_rp2040_con.ChargeMode.State.{Pass, ticks_since}
use open_trickler_rp2040_con.ChargeMode.Motors.{both}
use open_trickler_rp2040_con.ChargeMode.Charge.{
  Plan, Loop, Step, running, exited, finished, no_reading, end_backoff, note_motion, note_rate,
  predicted_weight, stop_here, stop_coarse, coarse_trickler_backoff, run_fine, run_coarse, drive,
  observe, on_reading, valid_reading, measured, is_rst, charge_pass, charge_loop, follow, send,
}

-- How a charge ends: not within these passes, by the button or the timeout, or at a reading.
pub data Verdict (F : Type 0) : Type 0 where
  more abandoned : Verdict F
  stopped_at : F → Verdict F

abbrev pub verdict : {F : Type 0} → Step (Loop F) → Verdict F
verdict (running l) = more
verdict (exited l) = abandoned
verdict (finished l) = stopped_at l.weight_at_stop

abbrev pub is_none : {F : Type 0} → Option F → Bool
is_none none = true
is_none (some x) = false

module _ {F : Type 0} ⦃fl : Floats F⦄ where
  -- The judgement of one pass; `stale` and `fresh` judge the passes behind it.
  abbrev pub judge : F → F → Bool → Verdict F → (F → Verdict F) → Option F → Verdict F
  judge aim threshold timed_out stale fresh none = if timed_out then abandoned else stale
  judge aim threshold timed_out stale fresh (some w) =
      if lt (aim - w) threshold then stopped_at w else fresh w

  -- The end that the readings call for: the first finite one whose distance below the aim is under the
  -- threshold, unless the button or two seconds without a finite reading come first.
  unfoldable pub first_stop : F → F → List (Pass F) → ℕ → Verdict F
  first_stop aim threshold [] valid = more
  first_stop aim threshold (p ∷ ps) valid =
      let stale = first_stop aim threshold ps valid in
      let fresh = first_stop aim threshold ps p.now in
      let timed_out = leb 2000 (ticks_since p.now valid) in
      if is_rst p.button
      then abandoned
      else judge aim threshold timed_out stale (λ w. fresh) (valid_reading p.measurement)

  last_valid-observe :
      (plan : Plan F) (w : F) (now : ℕ) (l : Loop F) → (observe plan w now l).last_valid_tick ≡ now
  unfolding observe note_rate note_motion end_backoff
  last_valid-observe plan w now l = ground arith

  last_valid-stop_coarse :
      (plan : Plan F) (predicted : F) (now later : ℕ) (l : Loop F)
      → (stop_coarse plan predicted now later l).last_valid_tick ≡ l.last_valid_tick
  unfolding stop_coarse coarse_trickler_backoff
  last_valid-stop_coarse plan predicted now later l = ground arith

  last_valid-drive :
      (plan : Plan F) (predicted : F) (now later : ℕ) (l : Loop F)
      → (drive plan predicted now later l).last_valid_tick ≡ l.last_valid_tick
  unfolding drive run_coarse run_fine
  last_valid-drive plan predicted now later l =
      ground (arith, last_valid-stop_coarse plan predicted now later l)

  -- One pass, where `go` is the loop behind it and agrees with `spec` on the last valid tick.
  follow-judge :
      (plan : Plan F) (p : Pass F) (left : List (Pass F)) (l : Loop F) (rst : Bool) (m : Option F)
      → (go : Loop F → Step (Loop F) × List (Pass F)) (spec : ℕ → Verdict F)
      → ((l' : Loop F) → verdict (go l').0 ≡ spec l'.last_valid_tick)
      → verdict
          (follow go left (if rst then exited (send both (lit 0 0) l) else measured plan p l m)).0
        ≡ (if rst
            then abandoned
            else judge plan.fine_aim plan.fine_stop_threshold
                (leb 2000 (ticks_since p.now l.last_valid_tick))
                (spec l.last_valid_tick)
                (λ w. spec p.now)
                m)
  unfolding no_reading on_reading stop_here
  follow-judge plan p left l true m go spec ih = refl
  follow-judge plan p left l false none go spec ih =
      elim (Bool-cases (leb 2000 (ticks_since p.now l.last_valid_tick))) [
        | inl h ↦ ground arith
        | inr h ↦ ground (arith, ih l)
      ]
  follow-judge plan p left l false (some w) go spec ih =
      let l' = observe plan w p.now l in
      let predicted = predicted_weight plan w l' in
      let next = drive plan predicted p.now p.after l' in
      elim (Bool-cases (lt (plan.fine_aim - w) plan.fine_stop_threshold)) [
        | inl h ↦ ground arith
        | inr h ↦
            let rest =
              ih next
              ∙ ap spec (
                  last_valid-drive plan predicted p.now p.after l'
                  ∙ last_valid-observe plan w p.now l) in
            ground (arith, rest)
      ]

  -- The charge loop ends as its readings call for, and in no other way: whatever the speeds, the
  -- prediction and the backoff do, it is `first_stop` of the passes.
  pub charge_loop-first_stop :
      (plan : Plan F) (ps : List (Pass F)) (l : Loop F)
      → verdict (charge_loop plan ps l).0
        ≡ first_stop plan.fine_aim plan.fine_stop_threshold ps l.last_valid_tick
  unfolding charge_loop first_stop charge_pass
  charge_loop-first_stop plan [] l = refl
  charge_loop-first_stop plan (p ∷ ps) l =
      follow-judge plan p (p ∷ ps) l (is_rst p.button) (valid_reading p.measurement)
        (charge_loop plan ps) (first_stop plan.fine_aim plan.fine_stop_threshold ps)
        (charge_loop-first_stop plan ps)

  -- No finite reading in this pass.
  abbrev pub silent : Pass F → Bool
  silent p = is_none (valid_reading p.measurement)

  abbrev pub all_silent : List (Pass F) → Bool
  all_silent [] = true
  all_silent (p ∷ ps) = silent p && all_silent ps

  stale-judge :
      (aim threshold : F) (timed_out : Bool) (stale : Verdict F) (fresh : F → Verdict F)
      (m : Option F)
      → is_none m ≡ true
      → judge aim threshold timed_out stale fresh m ≡ (if timed_out then abandoned else stale)
  stale-judge aim threshold timed_out stale fresh none h = refl
  stale-judge aim threshold timed_out stale fresh (some w) h = ground (arith, h)

  first_stop-silent :
      (aim threshold : F) (before after : List (Pass F)) (p : Pass F) (valid : ℕ)
      → all_silent before ≡ true
      → silent p ≡ true
      → leb 2000 (ticks_since p.now valid) ≡ true
      → first_stop aim threshold (before ++ p ∷ after) valid ≡ abandoned
  unfolding first_stop
  first_stop-silent aim threshold [] after p valid hs hp late = ground (
    arith,
    stale-judge aim threshold (leb 2000 (ticks_since p.now valid))
        (first_stop aim threshold after valid) (λ w. first_stop aim threshold after p.now)
        (valid_reading p.measurement) hp,
  )
  first_stop-silent aim threshold (q ∷ qs) after p valid hs hp late =
      let rest = qs ++ p ∷ after in
      ground (
        arith,
        stale-judge aim threshold (leb 2000 (ticks_since q.now valid))
            (first_stop aim threshold rest valid) (λ w. first_stop aim threshold rest q.now)
            (valid_reading q.measurement),
        first_stop-silent aim threshold qs after p valid,
      )

  -- A scale that goes silent cannot hold the charge: if no pass brings a finite reading, up to one that
  -- comes 2,000 ticks or more after the last valid reading, the loop has returned with the exit state by
  -- then, whatever passes would follow.
  pub charge_loop-silent :
      (plan : Plan F) (before after : List (Pass F)) (p : Pass F) (l : Loop F)
      → all_silent before ≡ true
      → silent p ≡ true
      → leb 2000 (ticks_since p.now l.last_valid_tick) ≡ true
      → verdict (charge_loop plan (before ++ p ∷ after) l).0 ≡ abandoned
  charge_loop-silent plan before after p l hs hp late =
      charge_loop-first_stop plan (before ++ p ∷ after) l
      ∙ first_stop-silent plan.fine_aim plan.fine_stop_threshold before after p l.last_valid_tick hs
          hp late
