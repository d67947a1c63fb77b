-- ===== src/LearnMode/Fits.antt =====
-- What a learner proposes from its throws over the fixed-point floats, and what a request sets.
use open_trickler_rp2040_con.Prelude.{◌≡◌, get_or, refl, true, false, List, [], ◌∷◌, arith}
use open_trickler_rp2040_con.Prelude.Int.{ℤ}
use open_trickler_rp2040_con.Float.{fixed, fixed_arith, lit, ◌*◌, lt, le}
use open_trickler_rp2040_con.ChargeMode.World.{learn_mode_get_land_sigma}
use open_trickler_rp2040_con.ChargeMode.Examples.{machine}
use open_trickler_rp2040_con.Profile.{Profile, Readers}
use open_trickler_rp2040_con.LearnMode.Request.{l9, l11, Param}
use open_trickler_rp2040_con.LearnMode.Request.InRange.{
  configured, LiteralsOrdered, InRange, configured-Unclamped,
}
use open_trickler_rp2040_con.LearnMode.State.{Learner}
use open_trickler_rp2040_con.LearnMode.Search.{fmin_at, cland_at}
use open_trickler_rp2040_con.LearnMode.Search.Grid.{grid_points}
use open_trickler_rp2040_con.LearnMode.Search.Best.{any, meets, Transitive}
use open_trickler_rp2040_con.LearnMode.Proposal.{no_result, fit_bounds, fit_profile, clamp_safety}
use open_trickler_rp2040_con.LearnMode.Proposal.Goal.{fit_profile-meets}
use open_trickler_rp2040_con.LearnMode.Examples.{learner}

≤-Transitive : Transitive fixed_arith.le
unfolding fixed_arith
≤-Transitive x y z h k = ground (arith, h, k)

some_meets : any (meets (fit_bounds learner)) (grid_points (fit_bounds learner)) ≡ true
unfolding any grid_points fit_bounds fixed_arith fmin_at cland_at
some_meets = refl

fit_profile-meets_example :
    let b = fit_bounds learner in
    let r = (fit_profile learner).result in
    (le r.predicted_total_s b.goal ≡ true)
    × (le (lit 5 1 * b.target) r.coarse_stop_threshold ≡ false)
    × (lt r.coarse_max_rps b.c_motor_min ≡ false)
    × (lt r.fine_max_rps r.fine_min_rps ≡ false)
unfolding fit_bounds fixed_arith
fit_profile-meets_example = fit_profile-meets ≤-Transitive learner some_meets refl

-- Ceilings just above the motors' least speeds, and a goal of one second.
abbrev crawling : Learner ℤ ℤ
crawling = record learner {
  machine = record machine {
    learn_config = record machine.learn_config {
      coarse_speed_ceiling = lit 5 2;
      fine_speed_ceiling = lit 6 2;
      time_goal_s = lit 10 1;
    };
  };
}

-- The result of the fit goes into the profile.
abbrev fitted : Learner ℤ ℤ
fitted = record learner { result = record no_result { predict_used = true }; result_valid = true }

literals : LiteralsOrdered fixed
unfolding fixed_arith
literals a b h = ground (arith, h)

-- Two digits and a factor of nine, which is clamped to five.
abbrev readers : Readers ℤ
readers = record {
  atoi = λ text. get_or text 0 0;
  strtol = λ text. get_or text 0 0;
  strtof = λ text. lit (get_or text 0 0) 0;
  string_to_boolean = λ text. true;
}

abbrev requests : List (List Param)
requests = (record { key = l9; value = 9 ∷ [] } ∷ record { key = l11; value = 1 ∷ [] } ∷ []) ∷ []

clamped_to_five :
    (configured readers true machine.learn_config requests).coarse_stop_safety ≡ lit 50 1
unfolding configured fixed_arith
clamped_to_five = refl

configured-Unclamped_example :
    let c = configured readers true machine.learn_config requests in
    InRange c
    × (learn_mode_get_land_sigma c ≡ c.land_sigma)
    × (clamp_safety c.coarse_stop_safety ≡ c.coarse_stop_safety)
configured-Unclamped_example =
    configured-Unclamped literals readers true machine.learn_config requests
