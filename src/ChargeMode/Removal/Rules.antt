-- ===== src/ChargeMode/Removal/Rules.antt =====
-- What the phase of the removal keeps: the parts that its steps may touch, and the rule of the phase.
use open_trickler_rp2040_con.Prelude.{
  ℕ, zero, suc, Bool, true, false, if-holds, Option, none, some, List, [], ◌∷◌,
}
use open_trickler_rp2040_con.Float.{Floats, lit, ◌+◌, ◌-◌, lt}
use open_trickler_rp2040_con.Profile.{Profile}
use open_trickler_rp2040_con.ChargeMode.State.{
  exit, wait_for_cup_return, charge_mode_get_active_bracket,
}
use open_trickler_rp2040_con.ChargeMode.Motors.{fine, led, default_colour}
use open_trickler_rp2040_con.ChargeMode.World.{
  Machine, Spell, with_state, tell, drive_motor, profile_get_selected,
}
use open_trickler_rp2040_con.ChargeMode.Phase.Rules.{Ends, next-Ends, with_profile-Ends}
use open_trickler_rp2040_con.ChargeMode.Settle.{
  settled, end_top_up, topped_up, top_up_speed, top_up_with, charge_mode_wait_for_settle,
  charge_mode_top_up,
}
use open_trickler_rp2040_con.ChargeMode.Removal.{
  RemovalScript, measure_lag, top_up_loop, judge_and_log, cup_gone, wait_for_cup,
  charge_mode_wait_for_cup_removal,
}

module _ {F : Type 0} ⦃fl : Floats F⦄ where
  open fl use {D}

  -- `P` is kept by the steps before the judgement, and brings `E` where they leave the charge mode.
  pub record Kept (P E : Machine F D → Type 0) : Type 0 where
    pub leaving : (m : Machine F D) → P m → E (with_state exit m)
    pub topping :
        (s : Spell F) (v : F) (m : Machine F D) → P m → P (end_top_up s (drive_motor fine v m))
    pub measuring : (x : F) (m : Machine F D) → P m → P (measure_lag x m)

  -- `Q` brings `R` or `E` by the steps behind the judgement.
  pub record Closed (Q E R : Machine F D → Type 0) : Type 0 where
    pub leaving : (m : Machine F D) → Q m → E (with_state exit m)
    pub returning :
        (m : Machine F D) → Q m → R (with_state wait_for_cup_return (tell (led default_colour) m))

  settled-Ends :
      (P E : Machine F D → Type 0) (k : Kept P E) (o : Option (Option F)) (m : Machine F D)
      → P m
      → Ends E (λ _. P) (settled o m)
  unfolding settled
  settled-Ends P E k none m h = tt
  settled-Ends P E k (some none) m h = k.leaving m h
  settled-Ends P E k (some (some x)) m h = h

  pub settle-Ends :
      (P E : Machine F D → Type 0) (k : Kept P E) (timeout : ℕ) (s : Spell F) (m : Machine F D)
      → P m
      → Ends E (λ _. P) (charge_mode_wait_for_settle timeout s m)
  unfolding charge_mode_wait_for_settle
  settle-Ends P E k timeout s m h = settled-Ends P E k _ m h

  topped_up-Ends :
      (P E : Machine F D → Type 0) (k : Kept P E) (s : Spell F) (v : F) (o : Option Bool)
      (m : Machine F D)
      → P m
      → Ends E (λ _. P) (topped_up s o (drive_motor fine v m))
  unfolding topped_up end_top_up
  topped_up-Ends P E k s v none m h = tt
  topped_up-Ends P E k s v (some true) m h = k.topping s v m h
  topped_up-Ends P E k s v (some false) m h =
      k.leaving (end_top_up s (drive_motor fine v m)) (k.topping s v m h)

  top_up_with-Ends :
      (P E : Machine F D → Type 0) (k : Kept P E) (bracket : F) (s : Spell F) (p : Profile F)
      → (m : Machine F D) → P m
      → Ends E (λ _. P) (top_up_with bracket s p m)
  unfolding top_up_with
  top_up_with-Ends P E k bracket s p m h = topped_up-Ends P E k s (top_up_speed m p) _ m h

  pub top_up-Ends :
      (P E : Machine F D → Type 0) (k : Kept P E) (bracket : F) (s : Spell F) (m : Machine F D)
      → P m
      → Ends E (λ _. P) (charge_mode_top_up bracket s m)
  unfolding charge_mode_top_up
  top_up-Ends P E k bracket s m h =
      with_profile-Ends E (λ _. P) (top_up_with bracket s) (profile_get_selected m.profile_data) m
        (λ p. top_up_with-Ends P E k bracket s p m h)

  top_up_loop-Ends :
      (P E : Machine F D → Type 0) (k : Kept P E) (n : ℕ) (bracket : F)
      (ss : List (Spell F × Spell F))
      → (current : F) (m : Machine F D) → P m
      → Ends E (λ _. P) (top_up_loop n bracket ss current m)
  unfolding top_up_loop
  top_up_loop-Ends P E k zero bracket ss current m h = h
  top_up_loop-Ends P E k (suc n) bracket [] current m h =
      if-holds (Ends E (λ _. P)) (lt (bracket + lit 5 4) (m.target_charge_weight - current)) tt h
  top_up_loop-Ends P E k (suc n) bracket ((trickle, settling) ∷ ss) current m h =
      if-holds (Ends E (λ _. P)) (lt (bracket + lit 5 4) (m.target_charge_weight - current))
        (next-Ends E (λ _. P) (λ _. P) _ (charge_mode_top_up bracket trickle m)
          (top_up-Ends P E k bracket trickle m h)
          (λ _ m1 h1.
            next-Ends E (λ _. P) (λ _. P) (top_up_loop n bracket ss)
              (charge_mode_wait_for_settle 5000 settling m1) (settle-Ends P E k 5000 settling m1 h1)
              (top_up_loop-Ends P E k n bracket ss)))
        h

  cup_gone-Ends :
      (Q E R : Machine F D → Type 0) (k : Closed Q E R) (o : Option Bool) (m : Machine F D)
      → Q m
      → Ends E (λ _. R) (cup_gone o m)
  unfolding cup_gone
  cup_gone-Ends Q E R k none m h = tt
  cup_gone-Ends Q E R k (some false) m h = k.leaving m h
  cup_gone-Ends Q E R k (some true) m h = k.returning m h

  wait_for_cup-Ends :
      (Q E R : Machine F D → Type 0) (k : Closed Q E R) (s : Spell F) (m : Machine F D)
      → Q m
      → Ends E (λ _. R) (wait_for_cup s m)
  unfolding wait_for_cup
  wait_for_cup-Ends Q E R k s m h = cup_gone-Ends Q E R k _ m h

  -- The phase keeps `P` up to the judgement, which brings `Q`, and ends with `R`, or early with `E`. The
  -- judgement's tick is the script's, and its bracket is that of the phase's beginning.
  pub removal-Ends :
      (P Q E R : Machine F D → Type 0) (kp : Kept P E) (kq : Closed Q E R)
      → (s : RemovalScript F) (m : Machine F D)
      → ((current : F) (m' : Machine F D)
          → P m'
          → Q (judge_and_log s.log_tick (charge_mode_get_active_bracket m.settings) current m'))
      → P m
      → Ends E (λ _. R) (charge_mode_wait_for_cup_removal s m)
  unfolding charge_mode_wait_for_cup_removal
  removal-Ends P Q E R kp kq s m judged h =
      let bracket = charge_mode_get_active_bracket m.settings in
      next-Ends E (λ _. P) (λ _. R) _ (charge_mode_wait_for_settle 5000 s.settling m)
        (settle-Ends P E kp 5000 s.settling m h)
        (λ first m1 h1.
          let m2 = measure_lag first m1 in
          next-Ends E (λ _. P) (λ _. R) _ (top_up_loop 2 bracket s.top_ups first m2)
            (top_up_loop-Ends P E kp 2 bracket s.top_ups first m2 (kp.measuring first m1 h1))
            (λ current m3 h3.
              wait_for_cup-Ends Q E R kq s.cup (judge_and_log s.log_tick bracket current m3)
                (judged current m3 h3)))
