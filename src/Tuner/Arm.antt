-- ===== src/Tuner/Arm.antt =====
-- The helpers of learn_tuner.c over one arm of a probe: policy_for, clampf, params_differ,
-- recent_misses and the arm_* functions.
use Prim.Native.Nat.{◌%◌, ◌^◌, ◌-◌ as nat_sub, ◌/◌ as nat_div, ◌+◌ as nat_add, ◌*◌ as nat_mul}
use open_trickler_rp2040_con.Prelude.{ℕ, zero, suc, Bool, ◌||◌, ltb, leb, ◌==◌, if◌then◌else◌, inc8}
use open_trickler_rp2040_con.Float.{Floats, lit, of_nat, ◌+◌, ◌-◌, ◌*◌, ◌/◌, lt, fabs, sqrtf}
use open_trickler_rp2040_con.Tuner.State.{Params, Env, Arm, Tuner, arm_n}

-- `tuner_policy_t`
pub record Policy (F : Type 0) : Type 0 where
  pub risky_margin : F
  pub reject_misses : ℕ
  pub min_gain_s : F
  pub bound_mul : F
  pub step_mul : F

-- The loop of recent_misses: `while (bits) { c += bits & 1; bits >>= 1; }`.
unfoldable pub popcount : ℕ → ℕ → ℕ → ℕ
popcount zero bits c = c
popcount (suc fuel) bits c =
    let rest = popcount fuel (nat_div bits 2) (nat_add c (bits % 2)) in
    if bits == 0 then c else rest

-- The mask keeps the low n bits; 32 rounds empty a uint32_t.
unfoldable pub masked_misses : ℕ → ℕ → ℕ
masked_misses miss_bits n = popcount 32 (if leb 32 n then miss_bits else miss_bits % 2 ^ n) 0

module _ {F : Type 0} ⦃fl : Floats F⦄ where
  unfoldable pub policy_for : Env F → Policy F
  policy_for env =
      if env.aggressive
      then record {
        risky_margin = lit 90 2;
        reject_misses = 3;
        min_gain_s = lit 20 2;
        bound_mul = lit 15 1;
        step_mul = lit 125 2;
      }
      else record {
        risky_margin = lit 125 2;
        reject_misses = 2;
        min_gain_s = lit 30 2;
        bound_mul = lit 10 1;
        step_mul = lit 10 1;
      }

  unfoldable pub clampf : F → F → F → F
  clampf v lo hi = if lt v lo then lo else if lt hi v then hi else v

  -- `fabsf(a - b) > 1e-4f`
  abbrev pub differs : F → F → Bool
  differs a b = lt (lit 1 4) (fabs (a - b))

  unfoldable pub params_differ : Params F → Params F → Bool
  params_differ a b =
      differs a.fine_max b.fine_max
      || differs a.fine_min b.fine_min
      || differs a.fine_kp b.fine_kp
      || differs a.coarse_max b.coarse_max
      || differs a.coarse_min b.coarse_min
      || differs a.coarse_kp b.coarse_kp
      || differs a.handoff b.handoff

  unfoldable pub recent_misses : Tuner F → ℕ → ℕ
  unfolding masked_misses
  recent_misses t n = masked_misses t.miss_bits n

  -- Past four arms' worth the arm is halved.
  unfoldable pub arm_halve : Arm F → Arm F
  arm_halve a =
      if leb (nat_mul 4 arm_n) a.n
      then record {
        n = nat_div a.n 2;
        misses = nat_div a.misses 2;
        sum = a.sum * lit 5 1;
        sum_sq = a.sum_sq * lit 5 1;
        err_sum = a.err_sum * lit 5 1;
        err_sum_sq = a.err_sum_sq * lit 5 1;
      }
      else a

  unfoldable pub arm_add : Arm F → F → F → Bool → Arm F
  unfolding arm_halve
  arm_add arm v err miss =
      let a = arm_halve arm in
      record {
        n = inc8 a.n;
        misses = if miss then inc8 a.misses else a.misses;
        sum = a.sum + v;
        sum_sq = a.sum_sq + v * v;
        err_sum = a.err_sum + err;
        err_sum_sq = a.err_sum_sq + err * err;
      }

  unfoldable pub arm_err_rms : Arm F → F
  arm_err_rms a = if ltb 0 a.n then sqrtf (a.err_sum_sq / of_nat a.n) else lit 0 0

  unfoldable pub arm_mean : Arm F → F
  arm_mean a = if ltb 0 a.n then a.sum / of_nat a.n else lit 0 0

  unfoldable pub arm_var : Arm F → F
  unfolding arm_mean
  arm_var a =
      let mean = arm_mean a in
      let var = (a.sum_sq - of_nat a.n * mean * mean) / of_nat (nat_sub a.n 1) in
      if ltb a.n 2 then lit 0 0 else if lt (lit 0 0) var then var else lit 0 0
