-- ===== src/LearnMode/Zeroing.antt =====
-- auto_zero ends, and what it has sent by then.
use open_trickler_rp2040_con.Prelude.{ℕ, zero, suc, ◌≡◌, ◌≤◌, Bool, true, false, List, [], ◌∷◌}
use open_trickler_rp2040_con.Float.{Floats, lt, fabs}
use open_trickler_rp2040_con.RingBuffer.Ring.{get_mean}
use open_trickler_rp2040_con.ChargeMode.State.{ChargeData}
use open_trickler_rp2040_con.ChargeMode.Settle.{steady}
use open_trickler_rp2040_con.LearnMode.{
  End, ready, aborted, failed, ZeroCommand, rezero, tare, ZeroLoop,
}

-- Re-zero and tare in turn, a re-zero first, the newest in front.
abbrev pub turn_after : List ZeroCommand → ZeroCommand
turn_after [] = rezero
turn_after (rezero ∷ zs) = tare
turn_after (tare ∷ zs) = rezero

abbrev pub in_turn : ℕ → List ZeroCommand
in_turn zero = []
in_turn (suc n) = turn_after (in_turn n) ∷ in_turn n

abbrev pub without_rezeros : List ZeroCommand → List ZeroCommand
without_rezeros [] = []
without_rezeros (rezero ∷ zs) = without_rezeros zs
without_rezeros (tare ∷ zs) = tare ∷ without_rezeros zs

-- The commands of the first `n` tries, by a driver that has a re-zero or has none.
abbrev pub expected : Bool → ℕ → List ZeroCommand
expected true n = in_turn n
expected false n = without_rezeros (in_turn n)

module _ {F : Type 0} ⦃fl : Floats F⦄ where
  -- At most twelve tries were made, and what was sent is theirs.
  abbrev pub Sent : Bool → ZeroLoop F → Type 0
  Sent has z = (z.tries ≤ 12) × (z.sent ≡ expected has z.tries)

  -- Success is a quiet window near zero, with six readings behind the last command.
  abbrev pub Zeroed : ChargeData F → End → ZeroLoop F → Type 0
  Zeroed c ready z =
      (6 ≤ z.samples_since_send)
      × (steady 6 c.set_point_sd_margin z.ring ≡ true)
      × (lt (fabs (get_mean z.ring)) c.set_point_mean_margin ≡ true)
  Zeroed c aborted z = Unit
  Zeroed c failed z = Unit

  abbrev pub Ended : ChargeData F → Bool → End × ZeroLoop F → Type 0
  Ended c has r = Sent has r.1 × Zeroed c r.0 r.1
