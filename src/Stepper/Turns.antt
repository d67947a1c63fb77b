-- ===== src/Stepper/Turns.antt =====
-- What a commanded velocity comes to: the speed, the direction and the period of the step signal.
use open_trickler_rp2040_con.Prelude.{
  ℕ, ◌≡◌, refl, sym, ap, ◌∙◌, Bool, true, false, ◌||◌, leb, if-cases, Then, Option, none, some,
  List, [], ◌∷◌, arith,
}
use open_trickler_rp2040_con.Float.{Floats, lit, of_nat, ◌+◌, ◌-◌, ◌*◌, ◌/◌, le, fabs}
use open_trickler_rp2040_con.Stepper.{
  Stepper, Clock, elapsed, same, after_ramp, speed_to_period, rotation_steps, put_speed, ramp_loop,
  ramp_time, speed_ramp, toggle_direction, stepper_speed_control_task,
}

-- Some time is at the ramp's length or behind it.
abbrev pub reaches : ℕ → ℕ → List ℕ → Bool
reaches us start [] = false
reaches us start (t ∷ ts) = leb us (elapsed t start) || reaches us start ts

-- The same motor, but for the periods.
pub record Same {F : Type 0} (m m' : Stepper F) : Type 0 where
  pub config : m'.config ≡ m.config
  pub velocity : m'.prev_velocity ≡ m.prev_velocity
  pub direction : m'.step_direction ≡ m.step_direction
  pub pin : m'.dir_pin ≡ m.dir_pin

after_ramp-Then :
    {F : Type 0} (P Q : Stepper F → Type 0) (next : Stepper F → Option (Stepper F))
    (o : Option (Stepper F))
    → ((m : Stepper F) → P m → Then Q (next m))
    → Then P o
    → Then Q (after_ramp next o)
after_ramp-Then P Q next none h k = k
after_ramp-Then P Q next (some m) h k = h m k

Then-map :
    {A : Type 0} (o : Option A) (P Q : A → Type 0) → ((a : A) → P a → Q a) → Then P o → Then Q o
Then-map none P Q f h = h
Then-map (some a) P Q f h = f a h

Same-refl : {F : Type 0} (m : Stepper F) → Same m m
Same-refl m = record { config = refl; velocity = refl; direction = refl; pin = refl }

-- The period in force.
abbrev pub newest : List ℕ → Option ℕ
newest [] = none
newest (x ∷ xs) = some x

module _ {F : Type 0} ⦃fl : Floats F⦄ where
  -- The direction is the configured one for a velocity of zero or more and the other for one below, and
  -- the pin shows it.
  abbrev pub Directed : Stepper F → Type 0
  Directed m =
      (m.step_direction ≡ same m.config.inverted_direction (le (lit 0 0) m.prev_velocity))
      × (m.dir_pin ≡ m.step_direction)

  module _ (lroundf : F → ℕ) where
    put_speed-Same :
        (m0 m : Stepper F) (v : F) (hz : ℕ) → Same m0 m → Same m0 (put_speed lroundf v hz m)
    unfolding put_speed
    put_speed-Same m0 m v hz h = record {
      config = h.config;
      velocity = h.velocity;
      direction = h.direction;
      pin = h.pin;
    }

    ramp_loop-Same :
        (prev dv : F) (us hz start : ℕ) (times : List ℕ) (m0 m : Stepper F)
        → reaches us start times ≡ true
        → Same m0 m
        → Then (Same m0) (ramp_loop lroundf prev dv us hz start times m)
    unfolding ramp_loop
    ramp_loop-Same prev dv us hz start [] m0 m e h = ground (arith, e)
    ramp_loop-Same prev dv us hz start (t ∷ ts) m0 m e h =
        let x = prev + dv * (of_nat (elapsed t start) / of_nat us) in
        if-cases (Then (Same m0)) (leb us (elapsed t start)) (λ _. h)
          (λ early.
            ramp_loop-Same prev dv us hz start ts m0 (put_speed lroundf x hz m)
              (ground (arith, e, early)) (put_speed-Same m0 m x hz h))

    -- The motor at a speed, otherwise as `m0`.
    abbrev pub At : Stepper F → F → ℕ → Stepper F → Type 0
    At m0 v hz m =
        Same m0 m
        × (newest m.periods ≡ some (speed_to_period lroundf v hz (rotation_steps m0.config)))

    put_speed-At :
        (m0 m : Stepper F) (v : F) (hz : ℕ) → Same m0 m → At m0 v hz (put_speed lroundf v hz m)
    unfolding put_speed
    put_speed-At m0 m v hz h = (
      put_speed-Same m0 m v hz h,
      ap (λ c. some (speed_to_period lroundf v hz (rotation_steps c))) h.config,
    )

    speed_ramp-At :
        (prev v : F) (hz : ℕ) (clock : Clock) (m0 m : Stepper F)
        → reaches (ramp_time m.config (v - prev)) clock.start clock.times ≡ true
        → Same m0 m
        → Then (At m0 v hz) (speed_ramp lroundf prev v hz clock m)
    unfolding speed_ramp
    speed_ramp-At prev v hz clock m0 m e h =
        after_ramp-Then (Same m0) (At m0 v hz) (λ m'. some (put_speed lroundf v hz m')) _
          (λ m' h'. put_speed-At m0 m' v hz h')
          (ramp_loop-Same prev (v - prev) (ramp_time m.config (v - prev)) hz clock.start clock.times
            m0 m e h)

    -- What a pass of the task leaves: the velocity behind the gear, the direction to it, and in force
    -- the period of its speed.
    pub record Turned (m : Stepper F) (v : F) (hz : ℕ) (m' : Stepper F) : Type 0 where
      pub config : m'.config ≡ m.config
      pub velocity : m'.prev_velocity ≡ v
      pub directed : Directed m'
      pub period :
          newest m'.periods ≡ some (speed_to_period lroundf (fabs v) hz (rotation_steps m.config))

    kept-Turned :
        (m m' : Stepper F) (v : F) (hz : ℕ)
        → Directed m
        → same (le (lit 0 0) v) (le (lit 0 0) m.prev_velocity) ≡ true
        → At m (fabs v) hz m'
        → Turned m v hz (record m' { prev_velocity = v })
    kept-Turned m m' v hz (d, pin) e (s, p) = record {
      config = s.config;
      velocity = refl;
      directed = (
        s.direction ∙ d ∙ ground (arith, e, s.config, ap (λ c. c.inverted_direction) s.config),
        s.pin ∙ pin ∙ sym s.direction,
      );
      period = p;
    }

    toggle_direction-Turned :
        (m m1 m2 : Stepper F) (v : F) (hz : ℕ)
        → Directed m
        → same (le (lit 0 0) v) (le (lit 0 0) m.prev_velocity) ≡ false
        → Same m m1
        → At (toggle_direction m1) (fabs v) hz m2
        → Turned m v hz (record m2 { prev_velocity = v })
    unfolding toggle_direction
    toggle_direction-Turned m m1 m2 v hz (d, pin) e s (s2, p) =
        let inv = ap (λ c. c.inverted_direction) (s2.config ∙ s.config) in
        record {
          config = s2.config ∙ s.config;
          velocity = refl;
          directed =
              (ground (arith, d, e, s2.direction, s.direction, inv), s2.pin ∙ sym s2.direction);
          period =
              p ∙ ap (λ c. some (speed_to_period lroundf (fabs v) hz (rotation_steps c))) s.config;
        }

    -- A velocity that the task has received is carried out, if the times that its ramps read reach their
    -- lengths: from a motor whose direction agrees with its velocity, the task ends its pass with the
    -- new velocity stored, the direction (and its pin) agreeing with it again, whether it had to turn
    -- round or not, and the period of the new speed the newest that the PIO was given.
    pub stepper_speed_control_task-Turned :
        (velocity : F) (hz : ℕ) (clock clock' : Clock) (m : Stepper F)
        → let v = velocity / m.config.gear_ratio in
          Directed m
          → reaches (ramp_time m.config (fabs v - fabs m.prev_velocity)) clock.start clock.times
            ≡ true
          → reaches (ramp_time m.config (lit 0 0 - fabs m.prev_velocity)) clock.start clock.times
            ≡ true
          → reaches (ramp_time m.config (fabs v - lit 0 0)) clock'.start clock'.times ≡ true
          → Then (Turned m v hz) (stepper_speed_control_task lroundf velocity hz clock clock' m)
    unfolding stepper_speed_control_task toggle_direction
    stepper_speed_control_task-Turned velocity hz clock clock' m d direct down up =
        let v = velocity / m.config.gear_ratio in
        let speed = fabs m.prev_velocity in
        let remember : Stepper F → Option (Stepper F) =
          λ m'. some (record m' { prev_velocity = v }) in
        if-cases (Then (Turned m v hz)) (same (le (lit 0 0) v) (le (lit 0 0) m.prev_velocity))
          (λ e.
            after_ramp-Then (At m (fabs v) hz) (Turned m v hz) remember _
              (λ m' h. kept-Turned m m' v hz d e h)
              (speed_ramp-At speed (fabs v) hz clock m m direct (Same-refl m)))
          (λ e.
            let Round : Stepper F → Type 0 =
              λ m2. Turned m v hz (record m2 { prev_velocity = v }) in
            after_ramp-Then Round (Turned m v hz) remember _ (λ m2 h. h)
              (after_ramp-Then (At m (lit 0 0) hz) Round
                (λ m1. speed_ramp lroundf (lit 0 0) (fabs v) hz clock' (toggle_direction m1)) _
                (λ m1 h1.
                  Then-map _ (At (toggle_direction m1) (fabs v) hz) Round
                    (λ m2 h2. toggle_direction-Turned m m1 m2 v hz d e h1.0 h2)
                    (speed_ramp-At (lit 0 0) (fabs v) hz clock' (toggle_direction m1)
                      (toggle_direction m1)
                      (ap (λ c. reaches (ramp_time c (fabs v - lit 0 0)) clock'.start clock'.times)
                          h1.0.config
                        ∙ up)
                      (Same-refl (toggle_direction m1))))
                (speed_ramp-At speed (lit 0 0) hz clock m m down (Same-refl m))))
