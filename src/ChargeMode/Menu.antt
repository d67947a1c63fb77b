-- ===== src/ChargeMode/Menu.antt =====
-- charge_mode_menu: the state machine, between switching the motors on and off.
pub mod Motion
pub mod Cycle
use Prim.Native.Nat.{◌+◌, ◌*◌}
use open_trickler_rp2040_con.Prelude.{ℕ, Bool, true, false, if◌then◌else◌, List, [], ◌∷◌, get_or}
use open_trickler_rp2040_con.Float.{Floats, lit}
use open_trickler_rp2040_con.ChargeMode.State.{
  ChargeState, exit, wait_for_zero, wait_for_complete, wait_for_cup_removal, wait_for_cup_return,
}
use open_trickler_rp2040_con.ChargeMode.Motors.{
  coarse, fine, Commands, led, default_colour, motor_enable,
}
use open_trickler_rp2040_con.ChargeMode.World.{Machine, Spell, with_state, tell}
use open_trickler_rp2040_con.ChargeMode.Phase.{Outcome, Phase, waiting, left, done, next}
use open_trickler_rp2040_con.ChargeMode.Complete.{charge_mode_wait_for_complete}
use open_trickler_rp2040_con.ChargeMode.Removal.{RemovalScript, charge_mode_wait_for_cup_removal}
use open_trickler_rp2040_con.ChargeMode.Zero.{
  charge_mode_wait_for_zero, charge_mode_wait_for_cup_return,
}

-- `decimal_places_t`, whose other values the switch takes as zero.
pub data DecimalPlaces : Type 0 where
  dp_2 dp_3 other : DecimalPlaces

-- How the world answers one phase, whichever it is.
pub record Visit (F : Type 0) : Type 0 where
  pub spell : Spell F
  pub removal : RemovalScript F

module _ {F : Type 0} ⦃fl : Floats F⦄ where
  open fl use {D, double, narrow}

  -- The target that the digits spell, the lowest first; sums of ints, then of doubles.
  unfoldable pub target_of : DecimalPlaces → List ℕ → F
  target_of places digits =
      let d : ℕ → ℕ = λ i. get_or digits i 0 in
      let tenth : ℕ → ℕ → D = λ i k. double.mul (double.of_nat (d i)) (double.lit 1 k) in
      elim places [
        | dp_2 ↦ narrow (
            double.add (double.add (double.of_nat (d 4 * 100 + d 3 * 10 + d 2)) (tenth 1 1))
              (tenth 0 2))
        | dp_3 ↦ narrow (
            double.add
              (double.add (double.add (double.of_nat (d 4 * 10 + d 3)) (tenth 2 1)) (tenth 1 2))
              (tenth 0 3))
        | other ↦ lit 0 0
      ]

  -- The `switch` on the state.
  unfoldable pub run_state : ChargeState → Visit F → Phase F D Unit
  unfolding charge_mode_wait_for_zero charge_mode_wait_for_complete charge_mode_wait_for_cup_removal
      charge_mode_wait_for_cup_return
  run_state wait_for_zero v m = charge_mode_wait_for_zero v.spell m
  run_state wait_for_complete v m = charge_mode_wait_for_complete v.spell m
  run_state wait_for_cup_removal v m = charge_mode_wait_for_cup_removal v.removal m
  run_state wait_for_cup_return v m = charge_mode_wait_for_cup_return v.spell m
  run_state exit v m = left m

  unfoldable pub enable_motors : Bool → Machine F D → Machine F D
  unfolding motor_enable
  enable_motors on m = record m {
    commands = motor_enable fine on (motor_enable coarse on m.commands);
  }

  -- Before the loop; the target is built unless the user's input is skipped.
  unfoldable pub enter_menu : Bool → DecimalPlaces → List ℕ → Machine F D → Machine F D
  unfolding enable_motors target_of
  enter_menu skip places digits m =
      let target = if skip then m.target_charge_weight else target_of places digits in
      with_state wait_for_zero (enable_motors true (record m { target_charge_weight = target }))

  unfoldable pub leave_menu : Machine F D → Machine F D
  unfolding enable_motors
  leave_menu m = enable_motors false (tell (led default_colour) m)

  -- The loop over its visits: `waiting` while a phase, or the session, goes on.
  unfoldable pub menu_loop : List (Visit F) → Phase F D Unit
  unfolding run_state
  menu_loop [] m = waiting
  menu_loop (v ∷ vs) m = next (λ _. menu_loop vs) (run_state m.state v m)

  -- Behind the loop.
  abbrev pub quit : Outcome (Machine F D) Unit → Outcome (Machine F D) Unit
  quit waiting = waiting
  quit (left m) = done tt (leave_menu m)
  quit (done u m) = done tt (leave_menu m)

  unfoldable pub charge_mode_menu : Bool → DecimalPlaces → List ℕ → List (Visit F) → Phase F D Unit
  unfolding menu_loop enter_menu leave_menu
  charge_mode_menu skip places digits vs m = quit (menu_loop vs (enter_menu skip places digits m))
