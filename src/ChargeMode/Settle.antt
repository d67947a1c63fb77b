-- ===== src/ChargeMode/Settle.antt =====
-- charge_mode_wait_for_settle and charge_mode_top_up.
pub mod Ends
use open_trickler_rp2040_con.Prelude.{
  ℕ, Bool, true, false, not, ◌&&◌, leb, ltb, if◌then◌else◌, Option, none, some, List,
}
use open_trickler_rp2040_con.Float.{Floats, lit, ◌+◌, ◌-◌, lt, le, fmaxf}
use open_trickler_rp2040_con.RingBuffer.Ring.{FloatRingBuffer, create, enqueue, get_mean, get_sd}
use open_trickler_rp2040_con.Profile.{Profile}
use open_trickler_rp2040_con.ChargeMode.State.{
  ChargeData, exit, Pass, ticks_since, tick_add, charge_scale_timeout_ms, seconds,
}
use open_trickler_rp2040_con.ChargeMode.Motors.{fine, motor_set_speed}
use open_trickler_rp2040_con.ChargeMode.World.{
  Machine, Spell, with_state, drive_motor, profile_get_selected,
}
use open_trickler_rp2040_con.ChargeMode.Phase.{
  Poll, again, out, poll, Phase, waiting, left, done, with_profile,
}
use open_trickler_rp2040_con.ChargeMode.Learn.{learn_landing_trim}
use open_trickler_rp2040_con.ChargeMode.Charge.{is_rst, valid_reading}

-- The window, and the last reading.
pub record Settling (F : Type 0) : Type 0 where
  pub ring : FloatRingBuffer F
  pub latest : F

module _ {F : Type 0} ⦃fl : Floats F⦄ where
  open fl use {D}

  -- The window is full, and its deviation under the margin.
  unfoldable pub steady : ℕ → F → FloatRingBuffer F → Bool
  unfolding get_sd
  steady count margin ring = leb count ring.count && lt (get_sd ring) margin

  unfoldable pub settle_add : Option F → Settling F → Settling F
  unfolding enqueue
  settle_add none s = s
  settle_add (some x) s = record { ring = enqueue x s.ring; latest = x }

  -- A pass of the loop; the result `none` is the button's.
  unfoldable pub settle_pass : F → ℕ → Pass F → Settling F → Poll (Settling F) (Option F)
  unfolding steady settle_add get_mean
  settle_pass margin deadline p s =
      let s' = settle_add p.measurement s in
      if not (ltb p.head deadline)
      then out (some s.latest)
      else if is_rst p.button
      then out none
      else if steady 6 margin s'.ring
      then out (some (get_mean s'.ring))
      else again s'

  unfoldable pub settled : Option (Option F) → Phase F D F
  settled none m = waiting
  settled (some none) m = left (with_state exit m)
  settled (some (some x)) m = done x m

  unfoldable pub charge_mode_wait_for_settle : ℕ → Spell F → Phase F D F
  unfolding settle_pass poll create settled
  charge_mode_wait_for_settle timeout_ms s m =
      let pass = settle_pass m.settings.set_point_sd_margin (tick_add s.start timeout_ms) in
      settled (poll pass s.passes (record { ring = create 6 s.memory; latest = s.latest })) m

  -- A pass of the loop over the tick of the last finite reading; the result is `ok`.
  unfoldable pub top_up_pass : F → F → ℕ → Pass F → ℕ → Poll ℕ Bool
  top_up_pass aim limit deadline p valid =
      if is_rst p.button
      then out false
      else if ltb deadline p.head
      then out true
      else elim (valid_reading p.measurement) [
        | none ↦
            if leb charge_scale_timeout_ms (ticks_since p.now valid) then out false else again valid
        | some x ↦ if lt (aim - x) limit then out true else again p.now
      ]

  unfoldable pub top_up_speed : Machine F D → Profile F → F
  top_up_speed m p =
      let speed = fmaxf m.motor_limits.fine_min_speed p.fine_min_flow_speed_rps in
      if le speed (lit 0 0) then lit 1 1 else speed

  -- Behind the loop, however it ended.
  unfoldable pub end_top_up : Spell F → Machine F D → Machine F D
  unfolding motor_set_speed
  end_top_up s m =
      let spent = seconds (ticks_since s.finish s.start) in
      record (drive_motor fine (lit 0 0) m) {
        last_charge_elapsed_seconds = m.last_charge_elapsed_seconds + spent;
      }

  unfoldable pub topped_up : Spell F → Option Bool → Phase F D Unit
  unfolding end_top_up
  topped_up s none m = waiting
  topped_up s (some true) m = done tt (end_top_up s m)
  topped_up s (some false) m = left (end_top_up s (with_state exit m))

  unfoldable pub top_up_with : F → Spell F → Profile F → Phase F D Unit
  unfolding learn_landing_trim top_up_speed top_up_pass poll topped_up motor_set_speed
  top_up_with bracket s p m =
      let aim = m.target_charge_weight + learn_landing_trim m in
      let pass = top_up_pass aim (bracket + lit 5 4) (tick_add s.start 15000) in
      topped_up s (poll pass s.passes s.start) (drive_motor fine (top_up_speed m p) m)

  unfoldable pub charge_mode_top_up : F → Spell F → Phase F D Unit
  unfolding profile_get_selected top_up_with
  charge_mode_top_up bracket s m =
      with_profile (top_up_with bracket s) (profile_get_selected m.profile_data) m
