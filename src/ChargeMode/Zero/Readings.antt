-- ===== src/ChargeMode/Zero/Readings.antt =====
-- How many readings the wait for zero takes.
use Prim.Native.Nat.{◌+◌}
use open_trickler_rp2040_con.Prelude.{
  ℕ, ◌≡◌, ◌≤◌, refl, ◌⊎◌, inl, inr, Bool, true, false, if-holds, if-cases, Option, none, some, List,
  [], ◌∷◌, arith,
}
use open_trickler_rp2040_con.Float.{Floats}
use open_trickler_rp2040_con.RingBuffer.Ring.{FloatRingBuffer, create, reset, enqueue}
use open_trickler_rp2040_con.ChargeMode.State.{ChargeData, wait_for_complete, Pass}
use open_trickler_rp2040_con.ChargeMode.Motors.{Commands, led, not_ready}
use open_trickler_rp2040_con.ChargeMode.World.{Machine, Spell, with_state, tell}
use open_trickler_rp2040_con.ChargeMode.Phase.{Poll, go_round, poll}
use open_trickler_rp2040_con.ChargeMode.Phase.Rules.{Result, Ends}
use open_trickler_rp2040_con.ChargeMode.Charge.{is_rst}
use open_trickler_rp2040_con.ChargeMode.Settle.{steady}
use open_trickler_rp2040_con.ChargeMode.Zero.{
  Zeroing, press, enqueue_reading, at_zero, zero_pass, end_wait, charge_mode_wait_for_zero,
}

module _ {F : Type 0} ⦃fl : Floats F⦄ where
  open fl use {D}

  abbrev pub reading : Option F → ℕ
  reading none = 0
  reading (some x) = 1

  -- The passes that bring a reading.
  abbrev pub readings : List (Pass F) → ℕ
  readings [] = 0
  readings (p ∷ ps) = reading p.measurement + readings ps

  -- Zero was not seen, or `n` readings are ten or more.
  abbrev pub Enough : ℕ → Bool × Commands F → Type 0
  Enough n r = (r.0 ≡ false) ⊎ (10 ≤ n)

  count-enqueue_reading :
      (o : Option F) (r : FloatRingBuffer F) → (enqueue_reading o r).count ≤ r.count + reading o
  unfolding enqueue_reading enqueue
  count-enqueue_reading none r = omega arith
  count-enqueue_reading (some x) r = ground arith

  at_zero-count : (c : ChargeData F) (r : FloatRingBuffer F) → at_zero c r ≡ true → 10 ≤ r.count
  unfolding at_zero steady
  at_zero-count c r h = ground (arith, h)

  Enough-more :
      (n k : ℕ) (o : Option (Bool × Commands F)) → n ≤ k → Result (Enough n) o → Result (Enough k) o
  Enough-more n k none h e = tt
  Enough-more n k (some r) h e = ground (arith, h, e)

  zero_loop-Enough :
      (c : ChargeData F) (ps : List (Pass F)) (z : Zeroing F)
      → Result (Enough (z.ring.count + readings ps)) (poll (zero_pass c) ps z)
  unfolding poll zero_pass
  zero_loop-Enough c [] z = tt
  zero_loop-Enough c (p ∷ ps) z =
      let ring = enqueue_reading p.measurement z.ring in
      let z' : Zeroing F = record { ring = ring; commands = press p.button z.commands } in
      let n = z.ring.count + readings (p ∷ ps) in
      let grows = count-enqueue_reading p.measurement z.ring in
      let rest =
        Enough-more (ring.count + readings ps) n (poll (zero_pass c) ps z') (omega (arith, grows))
          (zero_loop-Enough c ps z') in
      let go : Poll (Zeroing F) (Bool × Commands F) → Type 0 =
        λ x. Result (Enough n) (go_round (poll (zero_pass c) ps) x) in
      if-holds go (is_rst p.button) (inl refl) (
        if-cases go (at_zero c ring)
          (λ zero_seen. inr (omega (arith, at_zero-count c ring zero_seen, grows))) (λ _. rest))

  -- What the phase leaves where it goes on.
  end_wait-Enough :
      (k : ℕ) (next : Machine F D) (o : Option (Bool × Commands F)) (m : Machine F D)
      → Result (Enough k) o
      → Ends (λ _. Unit) (λ _ _. 10 ≤ k) (end_wait next o m)
  unfolding end_wait
  end_wait-Enough k next none m h = tt
  end_wait-Enough k next (some (false, cs)) m h = tt
  end_wait-Enough k next (some (true, cs)) m h = ground (arith, h)

  -- The wait for zero goes on to the charge only if its passes brought ten readings or more.
  charge_mode_wait_for_zero-readings :
      (s : Spell F) (m : Machine F D)
      → Ends (λ _. Unit) (λ _ _. 10 ≤ readings s.passes) (charge_mode_wait_for_zero s m)
  unfolding charge_mode_wait_for_zero create reset
  charge_mode_wait_for_zero-readings s m =
      let ready = tell (led not_ready) m in
      let first : Zeroing F = record { ring = create 10 s.memory; commands = ready.commands } in
      end_wait-Enough (readings s.passes) (with_state wait_for_complete ready)
        (poll (zero_pass m.settings) s.passes first) ready
        (Enough-more (0 + readings s.passes) (readings s.passes)
          (poll (zero_pass m.settings) s.passes first) (omega arith)
          (zero_loop-Enough m.settings s.passes first))
