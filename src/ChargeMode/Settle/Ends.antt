-- ===== src/ChargeMode/Settle/Ends.antt =====
-- The two loops that have a deadline end by it.
use open_trickler_rp2040_con.Prelude.{
  ℕ, ◌≡◌, refl, ap, ◌∙◌, Bool, true, false, ltb, Option, none, some, List, ◌∷◌, ◌++◌, arith,
}
use open_trickler_rp2040_con.Float.{Floats, lit, ◌+◌}
use open_trickler_rp2040_con.RingBuffer.Ring.{create}
use open_trickler_rp2040_con.Profile.{Profile}
use open_trickler_rp2040_con.ChargeMode.State.{exit, Pass, tick_add}
use open_trickler_rp2040_con.ChargeMode.Motors.{fine, fine_speed, motor_set_speed}
use open_trickler_rp2040_con.ChargeMode.World.{
  Machine, Spell, with_state, drive_motor, profile_get_selected,
}
use open_trickler_rp2040_con.ChargeMode.Phase.{poll, Outcome, with_profile}
use open_trickler_rp2040_con.ChargeMode.Phase.Rules.{
  leaves, has_ended, is_waiting, poll-leaves, Ends,
}
use open_trickler_rp2040_con.ChargeMode.Learn.{learn_landing_trim}
use open_trickler_rp2040_con.ChargeMode.Settle.{
  Settling, settle_pass, settled, charge_mode_wait_for_settle, top_up_pass, top_up_speed,
  end_top_up, topped_up, top_up_with, charge_mode_top_up,
}

module _ {F : Type 0} ⦃fl : Floats F⦄ where
  open fl use {D}

  settle_pass-leaves :
      (margin : F) (deadline : ℕ) (p : Pass F) (s : Settling F)
      → ltb p.head deadline ≡ false
      → leaves (settle_pass margin deadline p s) ≡ true
  unfolding settle_pass
  settle_pass-leaves margin deadline p s late = ground (arith, late)

  settled-waiting :
      (o : Option (Option F)) (m : Machine F D)
      → has_ended o ≡ true
      → is_waiting (settled o m) ≡ false
  unfolding settled
  settled-waiting none m h = ground (arith, h)
  settled-waiting (some none) m h = refl
  settled-waiting (some (some x)) m h = refl

  -- A twitchy scale cannot hold the settling: where a pass begins at the deadline or after it, the
  -- settling has ended by that pass, whatever the readings were.
  pub charge_mode_wait_for_settle-ends :
      (timeout : ℕ) (before after : List (Pass F)) (p : Pass F) (s : Spell F) (m : Machine F D)
      → s.passes ≡ before ++ p ∷ after
      → ltb p.head (tick_add s.start timeout) ≡ false
      → is_waiting (charge_mode_wait_for_settle timeout s m) ≡ false
  unfolding charge_mode_wait_for_settle
  charge_mode_wait_for_settle-ends timeout before after p s m e late =
      let margin = m.settings.set_point_sd_margin in
      let deadline = tick_add s.start timeout in
      let first : Settling F = record { ring = create 6 s.memory; latest = s.latest } in
      let ended =
        poll-leaves (settle_pass margin deadline) before after p first
          (λ s'. settle_pass-leaves margin deadline p s' late) in
      settled-waiting (poll (settle_pass margin deadline) s.passes first) m
        (ap (λ ps. has_ended (poll (settle_pass margin deadline) ps first)) e ∙ ended)

  top_up_pass-leaves :
      (aim limit : F) (deadline : ℕ) (p : Pass F) (valid : ℕ)
      → ltb deadline p.head ≡ true
      → leaves (top_up_pass aim limit deadline p valid) ≡ true
  unfolding top_up_pass
  top_up_pass-leaves aim limit deadline p valid late = ground (arith, late)

  -- A top-up that has ended, one way or the other, with the fine tube standing still.
  abbrev pub Stopped : Outcome (Machine F D) Unit → Type 0
  Stopped o =
      (is_waiting o ≡ false)
      × Ends (λ m. fine_speed m.commands ≡ lit 0 0) (λ _ m. fine_speed m.commands ≡ lit 0 0) o

  fine_speed-end_top_up :
      (s : Spell F) (m : Machine F D) → fine_speed (end_top_up s m).commands ≡ lit 0 0
  unfolding end_top_up motor_set_speed
  fine_speed-end_top_up s m = ground arith

  topped_up-Stopped :
      (s : Spell F) (o : Option Bool) (m : Machine F D)
      → has_ended o ≡ true
      → Stopped (topped_up s o m)
  unfolding topped_up
  topped_up-Stopped s none m h = ground (arith, h)
  topped_up-Stopped s (some true) m h = (refl, fine_speed-end_top_up s m)
  topped_up-Stopped s (some false) m h = (refl, fine_speed-end_top_up s (with_state exit m))

  top_up_with-Stopped :
      (bracket : F) (before after : List (Pass F)) (p : Pass F) (s : Spell F) (q : Profile F)
      → (m : Machine F D) → s.passes ≡ before ++ p ∷ after
      → ltb (tick_add s.start 15000) p.head ≡ true
      → Stopped (top_up_with bracket s q m)
  unfolding top_up_with
  top_up_with-Stopped bracket before after p s q m e late =
      let aim = m.target_charge_weight + learn_landing_trim m in
      let step = top_up_pass aim (bracket + lit 5 4) (tick_add s.start 15000) in
      let ended = poll-leaves step before after p s.start (λ valid.
        top_up_pass-leaves aim (bracket + lit 5 4) (tick_add s.start 15000) p valid late) in
      topped_up-Stopped s (poll step s.passes s.start) (drive_motor fine (top_up_speed m q) m)
        (ap (λ ps. has_ended (poll step ps s.start)) e ∙ ended)

  with_profile-Stopped :
      (k : Profile F → Machine F D → Outcome (Machine F D) Unit) (q : Profile F)
      → (o : Option (Profile F)) (m : Machine F D) → o ≡ some q
      → ((q' : Profile F) → Stopped (k q' m))
      → Stopped (with_profile k o m)
  with_profile-Stopped k q none m e h = ground (arith, e)
  with_profile-Stopped k q (some q') m e h = h q'

  -- The top-up cannot run on: with the profile's index in range, where a pass begins after the deadline
  -- of 15 seconds the top-up has ended by that pass, and the fine tube was last told to stand still.
  pub charge_mode_top_up-Stopped :
      (bracket : F) (before after : List (Pass F)) (p : Pass F) (s : Spell F) (q : Profile F)
      → (m : Machine F D) → profile_get_selected m.profile_data ≡ some q
      → s.passes ≡ before ++ p ∷ after
      → ltb (tick_add s.start 15000) p.head ≡ true
      → Stopped (charge_mode_top_up bracket s m)
  unfolding charge_mode_top_up
  charge_mode_top_up-Stopped bracket before after p s q m h e late =
      with_profile-Stopped (top_up_with bracket s) q (profile_get_selected m.profile_data) m h
        (λ q'. top_up_with-Stopped bracket before after p s q' m e late)
