-- ===== src/SessionStats/Tests.antt =====
-- A session of three throws over the fixed-point floats.
use Prim.Native.Nat.{◌-◌}
use open_trickler_rp2040_con.Prelude.{
  ℕ, ◌≡◌, refl, ltb, if◌then◌else◌, none, List, [], ◌∷◌, replicate, get_elem?, arith,
}
use open_trickler_rp2040_con.Prelude.Int.{ℤ}
use open_trickler_rp2040_con.Float.{fixed, fixed_arith, lit}
use open_trickler_rp2040_con.SessionStats.{
  Stats, Throw, pass, over, record_of, reset_locked, session_stats_record, session_stats_get,
  session_stats_avg_time, session_stats_err_mean, session_stats_success_rate,
}
use open_trickler_rp2040_con.SessionStats.Log.{IsValid}
use open_trickler_rp2040_con.SessionStats.Session.{session, records, session_stats_get-session}

abbrev first : Throw ℤ
first = record {
  target = lit 40 0;
  actual = lit 4001 2;
  total_s = lit 8 0;
  coarse_s = lit 3 0;
  bracket = lit 2 2;
  result = pass;
  profile_idx = 0;
  mode = 0;
}

abbrev second : Throw ℤ
second = record first { actual = lit 4005 2; total_s = lit 7 0; result = over }

abbrev blank : Stats ℤ ℤ
blank = record {
  log_buffer = replicate 400 (record_of 0 0 first);
  log_head = 0;
  log_count = 0;
  seq_counter = 0;
  summary = record {
    total = 0;
    pass = 0;
    under = 0;
    over = 0;
    sum_time = lit 0 0;
    sum_err = lit 0 0;
    sum_err_sq = lit 0 0;
    min_time = lit 0 0;
    max_time = lit 0 0;
    session_start_ms = 0;
    last_throw_ms = 0;
  };
}

abbrev throws : List (ℕ × Throw ℤ)
throws = (3000, first) ∷ (2000, second) ∷ (1000, first) ∷ []

abbrev state : Stats ℤ ℤ
state = session 500 blank throws

averages :
    (session_stats_avg_time state ≡ lit 76666 4)
    × (session_stats_success_rate state ≡ lit 666666 4)
    × (session_stats_err_mean state ≡ lit 233 4)
unfolding session_stats_avg_time session_stats_success_rate session_stats_err_mean
    session_stats_record reset_locked fixed_arith
averages = (refl, refl, refl)

blank-IsValid : IsValid blank
blank-IsValid = omega arith

session_stats_get-session_example :
    session_stats_get state 1 ≡ (if ltb 1 3 then get_elem? (records throws) (3 - 1 - 1) else none)
session_stats_get-session_example =
    session_stats_get-session 500 blank throws 1 (omega arith) (omega arith)
