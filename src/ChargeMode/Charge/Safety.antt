-- ===== src/ChargeMode/Charge/Safety.antt =====
-- What the charge loop has told the motors, at every pass and when it ends.
use open_trickler_rp2040_con.Prelude.{
  ℕ, ◌≡◌, ◌⊎◌, inl, inr, true, false, ◌&&◌, leb, if◌then◌else◌, Option, none, some, List, [], ◌∷◌,
  arith, if-holds,
}
use open_trickler_rp2040_con.Float.{Floats, lit, ◌-◌, lt, le, fabs, neg}
use open_trickler_rp2040_con.ChargeMode.State.{Pass, ticks_since}
use open_trickler_rp2040_con.ChargeMode.Motors.{both, motor_set_speed, coarse_speed, fine_speed}
use open_trickler_rp2040_con.ChargeMode.Charge.{
  Plan, Loop, Step, running, exited, finished, send, no_reading, end_backoff, note_motion,
  note_rate, predicted_weight, stop_here, coarse_trickler_backoff, stop_coarse, run_fine,
  run_coarse, drive, observe, on_reading, valid_reading, measured, is_rst, charge_pass, follow,
  charge_loop,
}

module _ {F : Type 0} ⦃fl : Floats F⦄ where
  -- `P` while the loop goes on, `E` where it has ended.
  abbrev pub All : (Loop F → Type 0) → (Loop F → Type 0) → Step (Loop F) → Type 0
  All P E (running l) = P l
  All P E (exited l) = E l
  All P E (finished l) = E l

  -- Both motors were last told to stand still.
  abbrev pub Halted : Loop F → Type 0
  Halted l = (coarse_speed l.commands ≡ lit 0 0) × (fine_speed l.commands ≡ lit 0 0)

  -- The speed of the backoff of coarse_trickler_backoff, before its sign.
  abbrev pub backoff_speed : Plan F → F
  backoff_speed plan =
      let configured = plan.settings.coarse_stop_backoff_speed_rps in
      if le configured (lit 0 0) then plan.coarse_min else configured

  -- The coarse stop was made, and the coarse tube was last told to stand still, or a backoff is in
  -- progress and it was last told to turn backwards.
  abbrev pub Stopped : Plan F → Loop F → Type 0
  Stopped plan l =
      (l.should_coarse_move ≡ false)
      × ((coarse_speed l.commands ≡ lit 0 0)
          ⊎ ((l.backoff_in_progress ≡ true)
              × (coarse_speed l.commands ≡ neg (fabs (backoff_speed plan)))))

  -- From `l0` to `l`: the coarse stop was made by now, or it had not been made at `l0` either.
  abbrev pub NoForward : Plan F → Loop F → Loop F → Type 0
  NoForward plan l0 l =
      ((l0.should_coarse_move ≡ true) × (l.should_coarse_move ≡ true)) ⊎ Stopped plan l

  begins-NoForward :
      (plan : Plan F) (l : Loop F)
      → (l.should_coarse_move ≡ true) ⊎ Stopped plan l
      → NoForward plan l l
  begins-NoForward plan l (inl moving) = inl (moving, moving)
  begins-NoForward plan l (inr stopped) = inr stopped

  send-Halted : (l : Loop F) → Halted (send both (lit 0 0) l)
  unfolding motor_set_speed
  send-Halted l = ground arith

  stop_here-Halted : (w : F) (l : Loop F) → Halted (stop_here w l)
  unfolding stop_here motor_set_speed
  stop_here-Halted w l = ground arith

  observe-NoForward :
      (plan : Plan F) (l0 : Loop F) (w : F) (now : ℕ) (l : Loop F)
      → NoForward plan l0 l
      → NoForward plan l0 (observe plan w now l)
  unfolding observe note_rate note_motion end_backoff motor_set_speed
  observe-NoForward plan l0 w now l h = ground arith

  stop_coarse-NoForward :
      (plan : Plan F) (l0 : Loop F) (predicted : F) (now later : ℕ) (l : Loop F)
      → NoForward plan l0 (stop_coarse plan predicted now later l)
  unfolding stop_coarse coarse_trickler_backoff motor_set_speed
  stop_coarse-NoForward plan l0 predicted now later l = ground arith

  run_fine-NoForward :
      (plan : Plan F) (l0 : Loop F) (error : F) (elapsed : ℕ) (l : Loop F)
      → NoForward plan l0 l
      → NoForward plan l0 (run_fine plan error elapsed l)
  unfolding run_fine motor_set_speed
  run_fine-NoForward plan l0 error elapsed l h = h

  run_coarse-NoForward :
      (plan : Plan F) (l0 : Loop F) (error : F) (elapsed : ℕ) (l : Loop F)
      → NoForward plan l0 l
      → NoForward plan l0 (run_coarse plan error elapsed l)
  unfolding run_coarse motor_set_speed
  run_coarse-NoForward plan l0 error elapsed l h = ground arith

  drive-NoForward :
      (plan : Plan F) (l0 : Loop F) (predicted : F) (now later : ℕ) (l : Loop F)
      → NoForward plan l0 l
      → NoForward plan l0 (drive plan predicted now later l)
  unfolding drive
  drive-NoForward plan l0 predicted now later l h =
      let elapsed = ticks_since now l.last_sample_tick in
      let stopping = le (plan.coarse_target - predicted) (lit 0 0) && l.should_coarse_move in
      let l1 = if stopping then stop_coarse plan predicted now later l else l in
      let fine_error = plan.fine_aim - predicted in
      let h1 =
        if-holds (NoForward plan l0) stopping (stop_coarse-NoForward plan l0 predicted now later l)
          h in
      run_coarse-NoForward plan l0 (plan.coarse_target - predicted) elapsed
        (run_fine plan fine_error elapsed l1) (run_fine-NoForward plan l0 fine_error elapsed l1 h1)

  -- A pass behind the button.
  measured-All :
      (plan : Plan F) (l0 : Loop F) (p : Pass F) (l : Loop F) (m : Option F)
      → NoForward plan l0 l
      → All (NoForward plan l0) Halted (measured plan p l m)
  unfolding no_reading on_reading
  measured-All plan l0 p l none h =
      if-holds (All (NoForward plan l0) Halted) (leb 2000 (ticks_since p.now l.last_valid_tick))
        (send-Halted l) h
  measured-All plan l0 p l (some w) h =
      let l' = observe plan w p.now l in
      if-holds (All (NoForward plan l0) Halted) (lt (plan.fine_aim - w) plan.fine_stop_threshold)
        (stop_here-Halted w l')
        (drive-NoForward plan l0 (predicted_weight plan w l') p.now p.after l'
          (observe-NoForward plan l0 w p.now l h))

  charge_pass-All :
      (plan : Plan F) (l0 : Loop F) (p : Pass F) (l : Loop F)
      → NoForward plan l0 l
      → All (NoForward plan l0) Halted (charge_pass plan p l)
  unfolding charge_pass
  charge_pass-All plan l0 p l h =
      if-holds (All (NoForward plan l0) Halted) (is_rst p.button) (send-Halted l)
        (measured-All plan l0 p l (valid_reading p.measurement) h)

  follow-All :
      (P E : Loop F → Type 0) (go : Loop F → Step (Loop F) × List (Pass F)) (left : List (Pass F))
      → ((l : Loop F) → P l → All P E (go l).0)
      → (s : Step (Loop F)) → All P E s
      → All P E (follow go left s).0
  follow-All P E go left ih (running l) h = ih l h
  follow-All P E go left ih (exited l) h = h
  follow-All P E go left ih (finished l) h = h

  -- The rule of the loop: what every pass keeps, or leaves at the end, holds of the loop.
  charge_loop-All :
      (plan : Plan F) (P E : Loop F → Type 0)
      → ((p : Pass F) (l : Loop F) → P l → All P E (charge_pass plan p l))
      → (ps : List (Pass F)) (l : Loop F) → P l
      → All P E (charge_loop plan ps l).0
  unfolding charge_loop
  charge_loop-All plan P E keeps [] l h = h
  charge_loop-All plan P E keeps (p ∷ ps) l h =
      follow-All P E (charge_loop plan ps) (p ∷ ps) (charge_loop-All plan P E keeps ps)
        (charge_pass plan p l) (keeps p l h)

  -- Whatever the passes bring, as long as the loop runs: if the coarse stop was made when it began, it stays
  -- made, and the coarse tube stands still or turns backwards at the backoff's speed, never forwards
  -- again; if it was not, the same holds from the coarse stop on. When the loop returns or breaks, both
  -- motors were last told to stand still. At the beginning the coarse tube does not turn forwards if the
  -- stop was made.
  pub charge_loop-NoForward :
      (plan : Plan F) (ps : List (Pass F)) (l : Loop F)
      → (l.should_coarse_move ≡ true) ⊎ Stopped plan l
      → All (NoForward plan l) Halted (charge_loop plan ps l).0
  charge_loop-NoForward plan ps l h =
      charge_loop-All plan (NoForward plan l) Halted (charge_pass-All plan l) ps l
        (begins-NoForward plan l h)
