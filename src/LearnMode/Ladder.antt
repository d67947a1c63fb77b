-- ===== src/LearnMode/Ladder.antt =====
-- The throws of learn_mode_menu: a probe on each tube, and then a ladder of speeds.
use Prim.Native.Nat.{◌+◌ as nat_add, ◌/◌ as nat_div}
use open_trickler_rp2040_con.Prelude.{ℕ, zero, suc, if◌then◌else◌, List, [], ◌∷◌, get_or, set}
use open_trickler_rp2040_con.Float.{Floats, lit, ◌+◌, ◌*◌, ◌/◌, lt, le, fmaxf, fminf}
use open_trickler_rp2040_con.ChargeMode.Phase.{waiting, done, pure, modify, ◌>>=◌}
use open_trickler_rp2040_con.LearnMode.State.{
  LearnState, LearnThrow, Learner, Learning, throws_per_phase,
}
use open_trickler_rp2040_con.LearnMode.Throw.{
  Tube, coarse_tube, fine_tube, ThrowScript, throw_for_time,
}
use open_trickler_rp2040_con.LearnMode.Proposal.{
  coarse_motor_min, fine_motor_min, coarse_cap, fine_cap,
}

-- The constants of a tube's probe.
pub record ProbePlan (F : Type 0) : Type 0 where
  pub tube : Tube
  pub state : LearnState
  pub speed : F
  pub run_s : F
  pub expected_gr : F
  pub fallback_k : F

-- The constants of a tube's ladder: the share of the top flow at each level, and how long a throw runs.
pub record LadderPlan (F : Type 0) : Type 0 where
  pub tube : Tube
  pub fractions : List F
  pub per_level : ℕ
  pub flow_top : F
  pub motor_min : F
  pub cap : F
  pub target : F
  pub flow_floor : F
  pub min_run_s : F
  pub max_run_s : F

-- A tube's two scripts.
pub record TubeScript (F : Type 0) : Type 0 where
  pub probe : ThrowScript F
  pub ladder : List (ThrowScript F)

module _ {F D : Type 0} where
  abbrev pub keep_throw : Tube → ℕ → LearnThrow F → Learner F D → Learner F D
  keep_throw coarse_tube i t l = record l { coarse_throws = set l.coarse_throws i t }
  keep_throw fine_tube i t l = record l { fine_throws = set l.fine_throws i t }

module _ {F : Type 0} ⦃fl : Floats F⦄ where
  open fl use {D}

  -- The flow per revolution that the probe finds. The throw is a local of learn_mode_menu.
  unfoldable pub probe : ProbePlan F → ThrowScript F → Learning F D F
  unfolding throw_for_time
  probe plan s l =
      let throw : Learning F D F = do
        _ ← modify (λ l. record l { state = plan.state; throw_idx = 0 })
        t ← throw_for_time plan.tube (λ t l. l) plan.speed plan.run_s plan.expected_gr s
        let k = t.flow_gps / plan.speed
        pure (if le k (lit 0 0) then plan.fallback_k else k)
      in throw l

  unfoldable pub clamp_between : F → F → F → F
  clamp_between lo hi v =
      let floored = if lt v lo then lo else v in if lt hi floored then hi else floored

  -- Throw `i` of the ladder, with the flow per revolution so far.
  unfoldable pub rung : LadderPlan F → ℕ → F → ThrowScript F → Learning F D F
  unfolding throw_for_time clamp_between
  rung plan i k s l =
      let want_flow = plan.flow_top * get_or plan.fractions (nat_div i plan.per_level) (lit 0 0) in
      let speed = clamp_between plan.motor_min plan.cap (want_flow / k) in
      let flow = k * speed in
      let run_s =
        clamp_between plan.min_run_s plan.max_run_s (plan.target / fmaxf flow plan.flow_floor) in
      let throw : Learning F D F = do
        _ ← modify (λ l. record l { throw_idx = i })
        t ← throw_for_time plan.tube (keep_throw plan.tube i) speed run_s (flow * run_s) s
        pure (if lt (lit 0 0) t.flow_gps then lit 7 1 * k + lit 3 1 * (t.flow_gps / speed) else k)
      in throw l

  -- The throws from `i` on, `n` of them.
  unfoldable pub ladder : LadderPlan F → ℕ → ℕ → List (ThrowScript F) → F → Learning F D F
  unfolding rung
  ladder plan zero i scripts k l = done k l
  ladder plan (suc n) i [] k l = waiting
  ladder plan (suc n) i (s ∷ scripts) k l =
      let climb : Learning F D F = do k' ← rung plan i k s; ladder plan n (nat_add i 1) scripts k'
      in climb l

  abbrev pub coarse_probe : Learner F D → ProbePlan F
  coarse_probe l = record {
    tube = coarse_tube;
    state = LearnState.coarse;
    speed = fmaxf (coarse_motor_min l) (lit 25 2 * coarse_cap l);
    run_s = lit 10 1;
    expected_gr = lit 100 1;
    fallback_k = lit 10 1;
  }

  abbrev pub fine_probe : Learner F D → ProbePlan F
  fine_probe l = record {
    tube = fine_tube;
    state = LearnState.fine;
    speed = fmaxf (fine_motor_min l) (lit 40 2 * fine_cap l);
    run_s = lit 40 1;
    expected_gr = lit 20 1;
    fallback_k = lit 1 1;
  }

  -- Four levels of three throws, in flow and not in speed, below a cap for the cup.
  abbrev pub coarse_ladder : Learner F D → F → LadderPlan F
  coarse_ladder l k = record {
    tube = coarse_tube;
    fractions = lit 20 2 ∷ lit 45 2 ∷ lit 70 2 ∷ lit 100 2 ∷ [];
    per_level = 3;
    flow_top = fminf (k * coarse_cap l) (lit 180 1);
    motor_min = coarse_motor_min l;
    cap = coarse_cap l;
    target = l.machine.learn_config.coarse_target;
    flow_floor = lit 1 1;
    min_run_s = lit 120 2;
    max_run_s = lit 400 2;
  }

  -- Three levels of four throws.
  abbrev pub fine_ladder : Learner F D → F → LadderPlan F
  fine_ladder l k = record {
    tube = fine_tube;
    fractions = lit 15 2 ∷ lit 45 2 ∷ lit 100 2 ∷ [];
    per_level = 4;
    flow_top = k * fine_cap l;
    motor_min = fine_motor_min l;
    cap = fine_cap l;
    target = l.machine.learn_config.fine_target;
    flow_floor = lit 1 2;
    min_run_s = lit 300 2;
    max_run_s = lit 120 1;
  }

  -- A probe and the ladder behind it. The limits are the configuration's, which a run leaves alone.
  unfoldable pub learn_coarse : TubeScript F → Learning F D F
  unfolding probe ladder
  learn_coarse s l =
      let throws : Learning F D F = do
        k ← probe (coarse_probe l) s.probe
        ladder (coarse_ladder l k) throws_per_phase 0 s.ladder k
      in throws l

  unfoldable pub learn_fine : TubeScript F → Learning F D F
  unfolding probe ladder
  learn_fine s l =
      let throws : Learning F D F = do
        k ← probe (fine_probe l) s.probe
        ladder (fine_ladder l k) throws_per_phase 0 s.ladder k
      in throws l
