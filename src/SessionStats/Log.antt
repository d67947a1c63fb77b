-- ===== src/SessionStats/Log.antt =====
-- The log keeps the last 400 throws, oldest first, and the totals account for every throw.
use Prim.Native.Nat.{◌+◌, ◌-◌, ◌%◌}
use open_trickler_rp2040_con.Prelude.{
  ℕ, ◌≤◌, ◌<◌, ◌≡◌, ◌≢◌, ltb, ◌==◌, if◌then◌else◌, some, length, length-set, get_elem?-set_self,
  get_elem?-set_ne, inc32, arith, Bool-cases, ltb→lt, inl, inr,
}
use open_trickler_rp2040_con.Float.{Floats}
use open_trickler_rp2040_con.SessionStats.{
  Summary, Stats, Throw, reset_locked, record_of, add_totals, session_stats_record,
  session_stats_get,
}

pub record IsValid {F D : Type 0} (s : Stats F D) : Type 0 where
  pub buffer : length s.log_buffer ≡ 400
  pub head_lt : s.log_head < 400
  pub count_le : s.log_count ≤ 400
  pub numbered : s.seq_counter ≡ s.summary.total
  pub total_lt : s.summary.total < 4294967296
  pub accounted : s.summary.total ≡ (s.summary.pass + s.summary.under + s.summary.over) % 4294967296

-- How many entries a throw pushes out of a log of n entries.
abbrev pub dropped : ℕ → ℕ
dropped n = if ltb n 400 then 0 else 1

-- Where the entry i of a log with this head and count stands.
abbrev slot : ℕ → ℕ → ℕ → ℕ
slot head count i = ((head + 400 - count) % 400 + i) % 400

-- After a write at the head, the newest entry stands there, and the others where they stood.
slot_lem :
    (head n i : ℕ)
    → head < 400
    → n ≤ 400
    → let n' = if ltb n 400 then n + 1 else n in
      let slot' = slot ((head + 1) % 400) n' i in
      (i + 1 ≡ n' → slot' ≡ head)
      × (i + 1 < n' → slot' ≢ head)
      × (i + 1 < n' → slot' ≡ slot head n (i + dropped n))
slot_lem head n i hh hn = elim (Bool-cases (ltb n 400)) [
  | inl room ↦ let h : n < 400 = ltb→lt n 400 room in rw room (omega arith)
  | inr full ↦ let h : n ≡ 400 = ground arith in rw full (omega arith)
]

module _ {F : Type 0} ⦃fl : Floats F⦄ where
  open fl use {D}

  -- A reset over a buffer of 400 records gives a valid, empty log.
  pub reset_locked-IsValid :
      (now : ℕ) (s : Stats F D) → length s.log_buffer ≡ 400 → IsValid (reset_locked now s)
  unfolding reset_locked
  reset_locked-IsValid now s h = ground arith

  pub add_totals-counts :
      (now : ℕ) (x : Throw F) (m : Summary F D)
      → m.total ≡ (m.pass + m.under + m.over) % 4294967296
      → let m' = add_totals now x m in
        (m'.total ≡ inc32 m.total) × (m'.total ≡ (m'.pass + m'.under + m'.over) % 4294967296)
  unfolding add_totals
  add_totals-counts now x m h = ground arith

  -- Every throw keeps the log's indices in range; the last sequence number is the number of throws, and
  -- passes, undercharges and overcharges add up to it (modulo 2^32).
  pub session_stats_record-IsValid :
      (now : ℕ) (x : Throw F) (s : Stats F D) → IsValid s → IsValid (session_stats_record now x s)
  unfolding session_stats_record
  session_stats_record-IsValid now x s v = ground (
    arith,
    add_totals-counts now x s.summary v.accounted,
    length-set s.log_buffer s.log_head (record_of (inc32 s.seq_counter) now x),
  )

  -- After a throw, the newest entry of the log is its record, and every other index reads what stood
  -- there before, one further on if the log was full; past the newest entry nothing is read.
  pub session_stats_get-record :
      (now : ℕ) (x : Throw F) (s : Stats F D) (i : ℕ)
      → IsValid s
      → let s' = session_stats_record now x s in
        session_stats_get s' i ≡ (
          if i + 1 == s'.log_count
          then some (record_of (inc32 s.seq_counter) now x)
          else session_stats_get s (i + dropped s.log_count))
  unfolding session_stats_record session_stats_get
  session_stats_get-record now x s i v =
      let h = s.log_head in
      let rec = record_of (inc32 s.seq_counter) now x in
      let count = if ltb s.log_count 400 then s.log_count + 1 else s.log_count in
      let slot' = slot ((h + 1) % 400) count i in
      ground (
        arith,
        get_elem?-set_self s.log_buffer h rec,
        get_elem?-set_ne s.log_buffer h slot' rec,
        slot_lem h s.log_count i v.head_lt v.count_le,
      )
