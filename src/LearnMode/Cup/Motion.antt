-- ===== src/LearnMode/Cup/Motion.antt =====
-- The waits and the cup leave both motors still.
use open_trickler_rp2040_con.Prelude.{Bool, if-holds, Option, none, some, List, [], ◌∷◌}
use open_trickler_rp2040_con.Float.{Floats, ◌+◌, lt}
use open_trickler_rp2040_con.ChargeMode.State.{Pass}
use open_trickler_rp2040_con.ChargeMode.Motors.{Commands}
use open_trickler_rp2040_con.ChargeMode.World.{Spell}
use open_trickler_rp2040_con.ChargeMode.Phase.{Outcome, next, poll}
use open_trickler_rp2040_con.ChargeMode.Phase.Rules.{Ends, next-Ends}
use open_trickler_rp2040_con.ChargeMode.Menu.Motion.{StillAfter, Still}
use open_trickler_rp2040_con.LearnMode.{
  End, ready, aborted, failed, ZeroCommand, rezero, tare, wait_for_stable, auto_zero,
}
use open_trickler_rp2040_con.LearnMode.State.{
  LearnState, Learner, Learning, with_learn_state, end_wait,
}
use open_trickler_rp2040_con.LearnMode.Cup.{
  ZeroScript, CupScript, tell_all, end_zero, settle, zero_scale, watch_pass, watch, cup_is_off,
  cup_is_back, empty_cup_and_zero, ensure_cup_room,
}

module _ {F : Type 0} ⦃fl : Floats F⦄ where
  open fl use {D}

  abbrev pub LearnerStill : Learner F D → Type 0
  LearnerStill l = Still l.machine

  -- However a routine ends, both motors are still.
  abbrev pub EndsStill : {A : Type 0} → Learning F D A → Type 0
  EndsStill run = (l : Learner F D) → LearnerStill l → Ends LearnerStill (λ _. LearnerStill) (run l)

  tell_all-StillAfter :
      (zs : List ZeroCommand) (cs : Commands F) → StillAfter cs → StillAfter (tell_all zs cs)
  tell_all-StillAfter [] cs h = h
  tell_all-StillAfter (rezero ∷ zs) cs h = tell_all-StillAfter zs cs h
  tell_all-StillAfter (tare ∷ zs) cs h = tell_all-StillAfter zs cs h

  pub end_wait-Still :
      {A : Type 0} (P : Learner F D → Type 0) (o : Option (End × A)) (l : Learner F D)
      → ((st : LearnState) → P (with_learn_state st l))
      → P l
      → Ends P (λ _. P) (end_wait o l)
  unfolding end_wait
  end_wait-Still P none l he h = tt
  end_wait-Still P (some (ready, a)) l he h = h
  end_wait-Still P (some (aborted, a)) l he h = he LearnState.aborted
  end_wait-Still P (some (failed, a)) l he h = he LearnState.error

  end_zero-Still : (o : Option (End × List ZeroCommand)) → EndsStill (end_zero o)
  unfolding end_zero
  end_zero-Still none l h = tt
  end_zero-Still (some (ready, sent)) l h = tell_all-StillAfter sent l.machine.commands h
  end_zero-Still (some (aborted, sent)) l h = tell_all-StillAfter sent l.machine.commands h
  end_zero-Still (some (failed, sent)) l h = tell_all-StillAfter sent l.machine.commands h

  pub settle-Still : (s : Spell F) → EndsStill (settle s)
  unfolding settle
  settle-Still s l h =
      end_wait-Still LearnerStill (wait_for_stable l.machine.settings s) l (λ _. h) h

  pub zero_scale-Still : (s : ZeroScript F) → EndsStill (zero_scale s)
  unfolding zero_scale
  zero_scale-Still s l h =
      end_zero-Still (auto_zero l.machine.settings l.has_force_zero s.settling s.zeroing) l h

  watch-Still : (seen : F → Bool) (ps : List (Pass F)) → EndsStill (watch seen ps)
  unfolding watch
  watch-Still seen ps l h = end_wait-Still LearnerStill (poll (watch_pass seen) ps tt) l (λ _. h) h

  -- An outcome and what follows it.
  pub goes_on :
      {A B : Type 0} (k : A → Learning F D B) (x : Outcome (Learner F D) A)
      → Ends LearnerStill (λ _. LearnerStill) x
      → ((a : A) → EndsStill (k a))
      → Ends LearnerStill (λ _. LearnerStill) (next k x)
  goes_on k x hx hk = next-Ends LearnerStill (λ _. LearnerStill) (λ _. LearnerStill) k x hx hk

  empty_cup_and_zero-Still : (s : CupScript F) → EndsStill (empty_cup_and_zero s)
  unfolding empty_cup_and_zero
  empty_cup_and_zero-Still s l h = goes_on _ _ (watch-Still cup_is_off s.off _ h) (λ _ l h.
      goes_on _ _ (settle-Still s.away l h) (λ off l h.
        goes_on _ _ (watch-Still (cup_is_back off) s.back l h) (λ _ l h.
          goes_on _ _ (settle-Still s.settling l h)
            (λ _ l h. goes_on _ _ (zero_scale-Still s.zero _ h) (λ _ l h. h)))))

  pub ensure_cup_room-Still : (s : CupScript F) (x : F) → EndsStill (ensure_cup_room s x)
  unfolding ensure_cup_room
  ensure_cup_room-Still s x l h =
      if-holds (Ends LearnerStill (λ _. LearnerStill))
        (lt l.machine.learn_config.cup_capacity_gr (l.cup_load_gr + x))
        (empty_cup_and_zero-Still s l h) h
