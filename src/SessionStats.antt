-- ===== src/SessionStats.antt =====
-- session_stats.c and session_stats.h: the log of the last throws and the running totals. The mutex
-- makes each call one step; the tick count that `uptime_ms` reads is an argument.
pub mod Log
pub mod Session
mod Tests
use Prim.Native.Nat.{◌+◌, ◌-◌, ◌%◌}
use open_trickler_rp2040_con.Prelude.{
  ℕ, Bool, leb, ltb, ◌==◌, if◌then◌else◌, Option, none, some, List, [], ◌∷◌, get_elem?, set,
  replicate, inc32,
}
use open_trickler_rp2040_con.Float.{Floats, lit, of_nat, ◌-◌ as minus, ◌*◌, ◌/◌, lt}

abbrev pub session_log_max : ℕ
session_log_max = 400

-- `throw_result_t`
pub data ThrowResult : Type 0 where
  pass under over : ThrowResult

-- `throw_record_t`, without its padding byte.
pub record ThrowRecord (F : Type 0) : Type 0 where
  pub seq : ℕ
  pub uptime_ms : ℕ
  pub target : F
  pub actual : F
  pub total_s : F
  pub coarse_s : F
  pub bracket : F
  pub result : ThrowResult
  pub profile_idx : ℕ
  pub mode : ℕ

-- `session_summary_t`; counters are uint32_t, sums are doubles.
pub record Summary (F D : Type 0) : Type 0 where
  pub total : ℕ
  pub pass : ℕ
  pub under : ℕ
  pub over : ℕ
  pub sum_time : D
  pub sum_err : D
  pub sum_err_sq : D
  pub min_time : F
  pub max_time : F
  pub session_start_ms : ℕ
  pub last_throw_ms : ℕ

-- The file's static variables.
pub record Stats (F D : Type 0) : Type 0 where
  pub log_buffer : List (ThrowRecord F)
  pub log_head : ℕ
  pub log_count : ℕ
  pub seq_counter : ℕ
  pub summary : Summary F D

-- The arguments of session_stats_record.
pub record Throw (F : Type 0) : Type 0 where
  pub target : F
  pub actual : F
  pub total_s : F
  pub coarse_s : F
  pub bracket : F
  pub result : ThrowResult
  pub profile_idx : ℕ
  pub mode : ℕ

module _ {F : Type 0} ⦃fl : Floats F⦄ where
  open fl use {D, double, widen, narrow}

  -- `_reset_locked`: the log's bytes stay, and none of them is valid.
  unfoldable pub reset_locked : ℕ → Stats F D → Stats F D
  reset_locked now s = record s {
    log_head = 0;
    log_count = 0;
    seq_counter = 0;
    summary = record {
      total = 0;
      pass = 0;
      under = 0;
      over = 0;
      sum_time = double.lit 0 0;
      sum_err = double.lit 0 0;
      sum_err_sq = double.lit 0 0;
      min_time = lit 0 0;
      max_time = lit 0 0;
      session_start_ms = now;
      last_throw_ms = 0;
    };
  }

  -- The record of a throw, with its number in the session.
  abbrev pub record_of : ℕ → ℕ → Throw F → ThrowRecord F
  record_of seq now x = record {
    seq = seq;
    uptime_ms = now;
    target = x.target;
    actual = x.actual;
    total_s = x.total_s;
    coarse_s = x.coarse_s;
    bracket = x.bracket;
    result = x.result;
    profile_idx = x.profile_idx;
    mode = x.mode;
  }

  -- The `switch` on the result.
  unfoldable pub count_result : ThrowResult → Summary F D → Summary F D
  count_result pass m = record m { pass = inc32 m.pass }
  count_result under m = record m { under = inc32 m.under }
  count_result over m = record m { over = inc32 m.over }

  -- The running totals of session_stats_record.
  unfoldable pub add_totals : ℕ → Throw F → Summary F D → Summary F D
  unfolding count_result
  add_totals now x m =
      let err = widen (minus x.actual x.target) in
      let m' = count_result x.result (record m { total = inc32 m.total }) in
      let first = m'.total == 1 in
      let min = if lt x.total_s m'.min_time then x.total_s else m'.min_time in
      let max = if lt m'.max_time x.total_s then x.total_s else m'.max_time in
      record m' {
        sum_time = double.add m'.sum_time (widen x.total_s);
        sum_err = double.add m'.sum_err err;
        sum_err_sq = double.add m'.sum_err_sq (double.mul err err);
        min_time = if first then x.total_s else min;
        max_time = if first then x.total_s else max;
        last_throw_ms = now;
      }

  -- `size_t` sums here stay below 2 * 400, so they do not wrap.
  unfoldable pub session_stats_record : ℕ → Throw F → Stats F D → Stats F D
  unfolding add_totals
  session_stats_record now x s =
      let seq = inc32 s.seq_counter in
      record s {
        log_buffer = set s.log_buffer s.log_head (record_of seq now x);
        log_head = (s.log_head + 1) % session_log_max;
        log_count = if ltb s.log_count session_log_max then s.log_count + 1 else s.log_count;
        seq_counter = seq;
        summary = add_totals now x s.summary;
      }

  unfoldable pub session_stats_count : Stats F D → ℕ
  session_stats_count s = s.log_count

  -- The record that goes through `out`; `none` is the result `false`.
  unfoldable pub session_stats_get : Stats F D → ℕ → Option (ThrowRecord F)
  session_stats_get s idx =
      let start = (s.log_head + session_log_max - s.log_count) % session_log_max in
      if leb s.log_count idx then none else get_elem? s.log_buffer ((start + idx) % session_log_max)

  unfoldable pub session_stats_avg_time : Stats F D → F
  session_stats_avg_time s =
      if s.summary.total == 0
      then lit 0 0
      else narrow (double.div s.summary.sum_time (double.of_nat s.summary.total))

  unfoldable pub session_stats_success_rate : Stats F D → F
  session_stats_success_rate s =
      if s.summary.total == 0
      then lit 0 0
      else lit 1000 1 * of_nat s.summary.pass / of_nat s.summary.total

  unfoldable pub session_stats_err_mean : Stats F D → F
  session_stats_err_mean s =
      if s.summary.total == 0
      then lit 0 0
      else narrow (double.div s.summary.sum_err (double.of_nat s.summary.total))

  unfoldable pub session_stats_err_sd : Stats F D → F
  session_stats_err_sd s =
      let n = double.of_nat s.summary.total in
      let mean = double.div s.summary.sum_err n in
      let spread = double.sub s.summary.sum_err_sq (double.mul (double.mul n mean) mean) in
      let var = double.div spread (double.sub n (double.lit 1 0)) in
      let var' = if double.lt var (double.lit 0 0) then double.lit 0 0 else var in
      if ltb s.summary.total 2 then lit 0 0 else narrow (double.sqrt var')
