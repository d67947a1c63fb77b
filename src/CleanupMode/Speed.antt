-- ===== src/CleanupMode/Speed.antt =====
-- In the cleanup mode both motors have the mode's speed.
use open_trickler_rp2040_con.Prelude.{
  ℕ, ◌≡◌, refl, Bool, if◌then◌else◌, if-holds, List, [], ◌∷◌, arith,
}
use open_trickler_rp2040_con.Float.{Floats, lit, is_finite}
use open_trickler_rp2040_con.ChargeMode.Motors.{
  motor_set_speed, motor_enable, coarse_speed, fine_speed,
}
use open_trickler_rp2040_con.Profile.{Readers}
use open_trickler_rp2040_con.CleanupMode.{
  Event, rst_pressed, rotate_cw, rotate_ccw, encoder_pressed, override_from_rest, other_event, Key,
  s0, s1, other_key, Input, event, request, Cleanup, drive_both, cleanup_event, cleanup_param,
  cleanup_loop, cleanup_enter, cleanup_leave, cleanup_mode_menu,
}

module _ {F : Type 0} ⦃fl : Floats F⦄ where
  -- A speed that is not finite stands for zero.
  abbrev pub told : F → F
  told v = if is_finite v then v else lit 0 0

  -- Both motors were last told the mode's speed.
  abbrev pub InStep : Cleanup F → Type 0
  InStep c =
      (coarse_speed c.commands ≡ told c.trickler_speed)
      × (fine_speed c.commands ≡ told c.trickler_speed)

  drive_both-InStep : (v : F) (c : Cleanup F) → InStep (drive_both v c)
  unfolding drive_both motor_set_speed
  drive_both-InStep v c = (refl, refl)

  cleanup_event-InStep : (e : Event) (c : Cleanup F) → InStep c → InStep (cleanup_event e c).1
  unfolding cleanup_event
  cleanup_event-InStep rst_pressed c h = drive_both-InStep (lit 0 0) c
  cleanup_event-InStep rotate_cw c h = drive_both-InStep _ c
  cleanup_event-InStep rotate_ccw c h = drive_both-InStep _ c
  cleanup_event-InStep encoder_pressed c h = drive_both-InStep (lit 0 0) c
  cleanup_event-InStep override_from_rest c h = h
  cleanup_event-InStep other_event c h = h

  enter-InStep :
      (c : Cleanup F)
      → coarse_speed c.commands ≡ lit 0 0
      → fine_speed c.commands ≡ lit 0 0
      → InStep (cleanup_enter c)
  unfolding cleanup_enter motor_enable
  enter-InStep c hc hf = ground (arith, hc, hf)

  leave-Still :
      (c : Cleanup F)
      → let cs = (cleanup_leave c).commands in
        (coarse_speed cs ≡ lit 0 0) × (fine_speed cs ≡ lit 0 0)
  unfolding cleanup_leave motor_enable motor_set_speed
  leave-Still c = ground arith

  module _ (readers : Readers F) where
    cleanup_param-InStep :
        (k : Key) (value : List ℕ) (c : Cleanup F)
        → InStep c
        → InStep (cleanup_param readers (record { key = k; value = value }) c)
    unfolding cleanup_param
    cleanup_param-InStep s0 value c h = h
    cleanup_param-InStep s1 value c h = drive_both-InStep (readers.strtof value) c
    cleanup_param-InStep other_key value c h = h

    cleanup_loop-InStep :
        (inputs : List Input) (c : Cleanup F) → InStep c → InStep (cleanup_loop readers inputs c).1
    unfolding cleanup_loop
    cleanup_loop-InStep [] c h = h
    cleanup_loop-InStep (event e ∷ inputs) c h =
        let c' = (cleanup_event e c).1 in
        let h' = cleanup_event-InStep e c h in
        if-holds (λ (r : Bool × Cleanup F). InStep r.1) (cleanup_event e c).0 h'
          (cleanup_loop-InStep inputs c' h')
    cleanup_loop-InStep (request p ∷ inputs) c h =
        cleanup_loop-InStep inputs (cleanup_param readers p c)
          (cleanup_param-InStep p.key p.value c h)

    -- From motors that stand still, whatever events and requests the mode meets: while it lasts, both
    -- motors were last told the mode's speed (zero for a speed that is not finite), and when it has been
    -- left, both were last told to stand still.
    pub cleanup_mode_menu-InStep :
        (inputs : List Input) (c : Cleanup F)
        → coarse_speed c.commands ≡ lit 0 0
        → fine_speed c.commands ≡ lit 0 0
        → let (quit, c') = cleanup_mode_menu readers inputs c in
          let v = if quit then lit 0 0 else told c'.trickler_speed in
          (coarse_speed c'.commands ≡ v) × (fine_speed c'.commands ≡ v)
    unfolding cleanup_mode_menu
    cleanup_mode_menu-InStep inputs c hc hf =
        let r = cleanup_loop readers inputs (cleanup_enter c) in
        ground (
          arith,
          leave-Still r.1,
          cleanup_loop-InStep inputs (cleanup_enter c) (enter-InStep c hc hf),
        )
