-- ===== src/LearnMode/Request.antt =====
-- The learn mode's configuration, loaded and changed by requests, and its requests for a run. Loading
-- and saving are calls of the configuration store.
pub mod InRange
use Prim.Native.Nat.{◌%◌}
use open_trickler_rp2040_con.Prelude.{
  ℕ, suc, Bool, true, false, not, ◌&&◌, ◌||◌, ltb, ◌==◌, if◌then◌else◌, List, [], ◌∷◌,
}
use open_trickler_rp2040_con.Float.{Floats, lit, lt, le}
use open_trickler_rp2040_con.Profile.{Readers}
use open_trickler_rp2040_con.ChargeMode.World.{LearnConfig}
use open_trickler_rp2040_con.CleanupMode.{Event, rst_pressed, override_from_rest}
use open_trickler_rp2040_con.LearnMode.State.{LearnState, Learner}
use open_trickler_rp2040_con.LearnMode.Proposal.{clamp_safety, learn_mode_apply_to_profile}
use open_trickler_rp2040_con.LearnMode.Confirm.{is_exit}

-- The keys that http_rest_learn_config knows.
pub data Key : Type 0 where
  l0 l1 l2 l3 l4 l5 l6 l7 l8 l9 l10 l11 ee other : Key

pub record Param : Type 0 where
  pub key : Key
  pub value : List ℕ

-- The values of http_rest_learn_state's `a0`.
pub data Action : Type 0 where
  start stop save other_action : Action

-- What a request for a run changes: the mode, whether the menu is asked to enter it, the events that are
-- put in the queue, and how often the profiles and the charge mode's settings are saved.
pub record Requests (F D : Type 0) : Type 0 where
  pub learner : Learner F D
  pub exit_to_learn : Bool
  pub sent : List Event
  pub saves : ℕ

-- Where a start is refused. The state `fit`, and the cup being emptied, are not among them.
abbrev pub refuses_start : LearnState → Bool
refuses_start LearnState.idle = false
refuses_start LearnState.wait_for_zero = true
refuses_start LearnState.coarse = true
refuses_start LearnState.fine = true
refuses_start LearnState.fit = false
refuses_start LearnState.confirm = true
refuses_start LearnState.done = false
refuses_start LearnState.aborted = false
refuses_start LearnState.error = false
refuses_start LearnState.empty_cup = false

module _ {F : Type 0} ⦃fl : Floats F⦄ where
  open fl use {D}

  abbrev pub default_learn_config : LearnConfig F
  default_learn_config = record {
    learn_config_rev = 0;
    style = 0;
    reserved = 0;
    coarse_target = lit 80 1;
    fine_target = lit 15 1;
    coarse_speed_ceiling = lit 100 1;
    fine_speed_ceiling = lit 60 1;
    confirm_target = lit 265 1;
    confirm_throws = 10;
    time_goal_s = lit 85 1;
    cup_capacity_gr = lit 3500 1;
    min_success_pct = lit 950 1;
    coarse_stop_safety = lit 15 1;
    land_sigma = lit 20 1;
  }

  -- A value that is out of its range is replaced by the default.
  abbrev pub or_default : F → F → F → F → F
  or_default lo hi default v = if lt v lo || lt hi v then default else v

  -- learn_mode_init behind the load, whose result `is_ok` is.
  unfoldable pub learn_mode_init : Bool → LearnConfig F → LearnConfig F
  learn_mode_init is_ok loaded =
      let d = default_learn_config in
      let c = if is_ok then loaded else d in
      record c {
        cup_capacity_gr =
            if lt c.cup_capacity_gr (lit 200 1) then d.cup_capacity_gr else c.cup_capacity_gr;
        time_goal_s = if lt c.time_goal_s (lit 10 1) then d.time_goal_s else c.time_goal_s;
        coarse_target = if le c.coarse_target (lit 0 0) then d.coarse_target else c.coarse_target;
        fine_target = if le c.fine_target (lit 0 0) then d.fine_target else c.fine_target;
        min_success_pct = or_default (lit 500 1) (lit 1000 1) d.min_success_pct c.min_success_pct;
        coarse_stop_safety =
            or_default (lit 10 1) (lit 50 1) d.coarse_stop_safety c.coarse_stop_safety;
        land_sigma = or_default (lit 10 1) (lit 40 1) d.land_sigma c.land_sigma;
        style = if ltb 1 c.style then 0 else c.style;
        reserved = 0;
      }

  abbrev pub clamp_in : F → F → F → F
  clamp_in lo hi v = let w = if lt v lo then lo else v in if lt hi w then hi else w

  -- The clamps of http_rest_learn_config, before it saves.
  unfoldable pub clamp_config : LearnConfig F → LearnConfig F
  clamp_config c = record c {
    time_goal_s = if lt c.time_goal_s (lit 10 1) then lit 10 1 else c.time_goal_s;
    cup_capacity_gr = if lt c.cup_capacity_gr (lit 200 1) then lit 200 1 else c.cup_capacity_gr;
    min_success_pct = clamp_in (lit 500 1) (lit 1000 1) c.min_success_pct;
    coarse_stop_safety = clamp_in (lit 10 1) (lit 50 1) c.coarse_stop_safety;
    land_sigma = clamp_in (lit 10 1) (lit 40 1) c.land_sigma;
  }

  module _ (r : Readers F) where
    -- The chain of tests for one parameter, with `save_to_eeprom`.
    unfoldable pub edit : Key → List ℕ → LearnConfig F → Bool → LearnConfig F × Bool
    edit l0 v c saving = (record c { coarse_target = r.strtof v }, saving)
    edit l1 v c saving = (record c { fine_target = r.strtof v }, saving)
    edit l2 v c saving = (record c { coarse_speed_ceiling = r.strtof v }, saving)
    edit l3 v c saving = (record c { fine_speed_ceiling = r.strtof v }, saving)
    edit l4 v c saving = (record c { confirm_target = r.strtof v }, saving)
    edit l5 v c saving = (record c { confirm_throws = r.atoi v % 256 }, saving)
    edit l6 v c saving = (record c { time_goal_s = r.strtof v }, saving)
    edit l7 v c saving = (record c { cup_capacity_gr = r.strtof v }, saving)
    edit l8 v c saving = (record c { min_success_pct = r.strtof v }, saving)
    edit l9 v c saving = (record c { coarse_stop_safety = r.strtof v }, saving)
    edit l10 v c saving = (record c { land_sigma = r.strtof v }, saving)
    edit l11 v c saving = (record c { style = if r.atoi v == 1 then 1 else 0 }, saving)
    edit ee v c saving = (c, r.string_to_boolean v)
    edit other v c saving = (c, saving)

    unfoldable pub edit_all : List Param → LearnConfig F → Bool → LearnConfig F × Bool
    unfolding edit
    edit_all [] c saving = (c, saving)
    edit_all (p ∷ ps) c saving =
        let (c', saving') = edit p.key p.value c saving in edit_all ps c' saving'

    -- The configuration behind the request, and whether it is saved.
    unfoldable pub http_rest_learn_config : List Param → LearnConfig F → LearnConfig F × Bool
    unfolding edit_all clamp_config
    http_rest_learn_config params c =
        let (c', saving) = edit_all params c false in (clamp_config c', saving)

  -- One action of http_rest_learn_state.
  unfoldable pub act : Action → Requests F D → Requests F D
  unfolding learn_mode_apply_to_profile
  act start q =
      if not (refuses_start q.learner.state) && is_exit q.learner.machine.state
      then record q { exit_to_learn = true; sent = override_from_rest ∷ q.sent }
      else q
  act stop q = record q { sent = rst_pressed ∷ q.sent }
  act save q =
      if q.learner.result_valid
      then record q { learner = (learn_mode_apply_to_profile q.learner).0; saves = suc q.saves }
      else q
  act other_action q = q

  unfoldable pub http_rest_learn_state : List Action → Requests F D → Requests F D
  unfolding act
  http_rest_learn_state [] q = q
  http_rest_learn_state (a ∷ as') q = http_rest_learn_state as' (act a q)
