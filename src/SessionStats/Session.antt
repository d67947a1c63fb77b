-- ===== src/SessionStats/Session.antt =====
-- A whole session: a reset, then throws.
use Prim.Native.Nat.{◌+◌, ◌-◌, min}
use open_trickler_rp2040_con.Prelude.{
  ℕ, zero, suc, ◌<◌, ◌≡◌, ◌≢◌, refl, ap, ltb, if◌then◌else◌, none, List, [], ◌∷◌, length, get_elem?,
  inc32, arith,
}
use open_trickler_rp2040_con.Float.{Floats}
use open_trickler_rp2040_con.SessionStats.{
  ThrowRecord, Stats, Throw, reset_locked, record_of, session_stats_record, session_stats_get,
}
use open_trickler_rp2040_con.SessionStats.Log.{
  IsValid, dropped, reset_locked-IsValid, session_stats_record-IsValid, session_stats_get-record,
}

get_elem?-cons {ℓ} :
    {A : Type ℓ} (x : A) (xs : List A) (k : ℕ) → k ≢ 0 → get_elem? (x ∷ xs) k ≡ get_elem? xs (k - 1)
get_elem?-cons x xs zero h = absurd (h refl)
get_elem?-cons x xs (suc k) h = ap (get_elem? xs) (omega arith)

module _ {F : Type 0} ⦃fl : Floats F⦄ where
  open fl use {D}

  -- The state after a session, its calls listed with their ticks, the newest first.
  abbrev pub session : ℕ → Stats F D → List (ℕ × Throw F) → Stats F D
  session start s [] = reset_locked start s
  session start s ((now, x) ∷ xs) = session_stats_record now x (session start s xs)

  -- The records of a session, the newest first, numbered from 1.
  abbrev pub records : List (ℕ × Throw F) → List (ThrowRecord F)
  records [] = []
  records ((now, x) ∷ xs) = record_of (suc (length xs)) now x ∷ records xs

  session-IsValid :
      (start : ℕ) (s : Stats F D) (xs : List (ℕ × Throw F))
      → length s.log_buffer ≡ 400
      → IsValid (session start s xs)
  session-IsValid start s [] h = reset_locked-IsValid start s h
  session-IsValid start s ((now, x) ∷ xs) h =
      session_stats_record-IsValid now x (session start s xs) (session-IsValid start s xs h)

  count-record :
      (now : ℕ) (x : Throw F) (s : Stats F D)
      → let s' = session_stats_record now x s in
        (s'.log_count ≡ (if ltb s.log_count 400 then s.log_count + 1 else s.log_count))
        × (s'.seq_counter ≡ inc32 s.seq_counter)
  unfolding session_stats_record
  count-record now x s = (refl, refl)

  counts-session :
      (start : ℕ) (s : Stats F D) (xs : List (ℕ × Throw F))
      → length xs < 4294967296
      → let s' = session start s xs in
        (s'.log_count ≡ min (length xs) 400) × (s'.seq_counter ≡ length xs)
  unfolding reset_locked
  counts-session start s [] n = omega arith
  counts-session start s ((now, x) ∷ xs) n =
      let s' = session start s xs in
      ground (arith, counts-session start s xs (omega arith), count-record now x s')

  -- In a session of fewer than 2^32 throws over a buffer of 400 records, index i reads the i-th oldest
  -- of the last 400 throws (of all throws, if there are fewer), numbered as it was thrown, and nothing
  -- beyond them.
  pub session_stats_get-session :
      (start : ℕ) (s : Stats F D) (xs : List (ℕ × Throw F)) (i : ℕ)
      → length s.log_buffer ≡ 400
      → length xs < 4294967296
      → let kept = min (length xs) 400 in
        session_stats_get (session start s xs) i
        ≡ (if ltb i kept then get_elem? (records xs) (kept - 1 - i) else none)
  unfolding session_stats_get reset_locked
  session_stats_get-session start s [] i h n = ground arith
  session_stats_get-session start s ((now, x) ∷ xs) i h n =
      let s' = session start s xs in
      let m = length xs in
      ground (
        arith,
        counts-session start s xs (omega arith),
        count-record now x s',
        get_elem?-cons (record_of (suc m) now x) (records xs) (min (suc m) 400 - 1 - i),
        session_stats_get-session start s xs (i + dropped s'.log_count) h (omega arith),
        session_stats_get-record now x s' i (session-IsValid start s xs h),
      )
