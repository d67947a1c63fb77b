-- ===== src/LearnMode/Throw/Bounds.antt =====
-- What a throw that is handed back has measured.
use open_trickler_rp2040_con.Prelude.{◌≡◌, true, false, if-cases, if◌then◌else◌, arith}
use open_trickler_rp2040_con.Float.{Floats, lit, neg, ◌*◌, lt, fmaxf}
use open_trickler_rp2040_con.Tuner.Limits.{Irreflexive, Within}
use open_trickler_rp2040_con.ChargeMode.World.{move_gate}
use open_trickler_rp2040_con.ChargeMode.Phase.{Outcome, waiting, left, done, pure, next}
use open_trickler_rp2040_con.ChargeMode.Phase.Rules.{Ends}
use open_trickler_rp2040_con.LearnMode.State.{LearnThrow, Learner, Learning, with_machine}
use open_trickler_rp2040_con.LearnMode.Cup.{ZeroScript, settle, zero_scale, ensure_cup_room}
use open_trickler_rp2040_con.LearnMode.Throw.{
  Tube, ThrowScript, Run, max_settled, clamp_lag, measure_throw, load_cup, judge_throw, measure,
  run_tube, throw_tube, throw_for_time,
}

module _ {F : Type 0} ⦃fl : Floats F⦄ where
  open fl use {D}

  -- The lag is not below 0 and not above 5 seconds, and what landed is not below 0.05 grains.
  abbrev pub Good : LearnThrow F → Type 0
  Good t = Within (lit 0 0) (lit 50 1) t.lag_s × (lt t.settled_weight (lit 5 2) ≡ false)

  abbrev LagBounded : LearnThrow F → Type 0
  LagBounded t = Within (lit 0 0) (lit 50 1) t.lag_s

  clamp_lag-Within :
      Irreflexive fl
      → lt {F = F} (lit 50 1) (lit 0 0) ≡ false
      → (x : F) → Within (lit 0 0) (lit 50 1) (clamp_lag x)
  unfolding clamp_lag
  clamp_lag-Within irr ordered x = ground (arith, irr (lit 0 0), irr (lit 50 1), ordered)

  -- What follows holds of the result, whatever was before.
  then_holds :
      {A B : Type 0} (K : B → Learner F D → Type 0) (k : A → Learning F D B)
      (x : Outcome (Learner F D) A)
      → ((a : A) (l : Learner F D) → Ends (λ _. Unit) K (k a l))
      → Ends (λ _. Unit) K (next k x)
  then_holds K k waiting h = tt
  then_holds K k (left l) h = tt
  then_holds K k (done a l) h = h a l

  module _ (tube : Tube) (keep : LearnThrow F → Learner F D → Learner F D) where
    judge_throw-Good :
        (t : LearnThrow F) (s : ZeroScript F) (l : Learner F D)
        → LagBounded t
        → Ends (λ _. Unit) (λ t _. Good t) (judge_throw tube keep t s l)
    unfolding judge_throw
    judge_throw-Good t s l h =
        if-cases (Ends (λ _. Unit) (λ t _. Good t)) (lt t.settled_weight (lit 5 2)) (λ _. tt)
          (λ enough.
            then_holds (λ t _. Good t) (λ _. pure t) (zero_scale s (load_cup tube keep t l))
              (λ _ l. (h, enough)))

    measure-Good :
        Irreflexive fl
        → lt {F = F} (lit 50 1) (lit 0 0) ≡ false
        → (speed base : F) (s : ThrowScript F) (r : Run F) (l : Learner F D)
        → Ends (λ _. Unit) (λ t _. Good t) (measure tube keep speed base s r l)
    unfolding measure measure_throw
    measure-Good irr ordered speed base s r l =
        then_holds (λ t _. Good t) _ (settle s.settling l)
          (λ settled l. judge_throw-Good _ s.zero l (clamp_lag-Within irr ordered _))

    throw_tube-Good :
        Irreflexive fl
        → lt {F = F} (lit 50 1) (lit 0 0) ≡ false
        → (speed run_s : F) (s : ThrowScript F) (l : Learner F D)
        → Ends (λ _. Unit) (λ t _. Good t) (throw_tube tube keep speed run_s s l)
    unfolding throw_tube
    throw_tube-Good irr ordered speed run_s s l =
        let base = if lt s.base (neg (lit 10 1)) then lit 0 0 else s.base in
        let opened : Learner F D = record (with_machine (move_gate (lit 0 0) true) l) {
          current_speed = speed;
        } in
        then_holds (λ t _. Good t) (measure tube keep speed base s)
          (run_tube tube speed run_s base s opened) (measure-Good irr ordered speed base s)

    -- A throw that is handed back to the ladder has a lag that is neither below 0 nor above 5 seconds, and
    -- a settled weight that is not below 0.05 grains; in the floats' `<`, by which a NaN is none of these,
    -- on any floats whose `<` is irreflexive and has 0 and 5 in order.
    pub throw_for_time-Good :
        Irreflexive fl
        → lt {F = F} (lit 50 1) (lit 0 0) ≡ false
        → (speed run_s expected_gr : F) (s : ThrowScript F) (l : Learner F D)
        → Ends (λ _. Unit) (λ t _. Good t) (throw_for_time tube keep speed run_s expected_gr s l)
    unfolding throw_for_time
    throw_for_time-Good irr ordered speed run_s expected_gr s l =
        then_holds (λ t _. Good t) (λ _. throw_tube tube keep speed run_s s)
          (ensure_cup_room s.cup (fmaxf expected_gr (max_settled tube l) * lit 115 2) l)
          (λ _. throw_tube-Good irr ordered speed run_s s)
