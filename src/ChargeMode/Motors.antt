-- ===== src/ChargeMode/Motors.antt =====
-- What the charge mode tells the hardware: motors, gate, lamp and scale, as a list of commands with the
-- newest first. motor_set_speed is that of motors.c.
use open_trickler_rp2040_con.Prelude.{ℕ, Bool, true, false, if◌then◌else◌, List, [], ◌∷◌}
use open_trickler_rp2040_con.Float.{Floats, lit, is_finite}

pub data Motor : Type 0 where
  coarse fine both : Motor

-- The colours of neopixel_led_set_colour, by what they say.
pub data Colour : Type 0 where
  not_ready normal_charge under_charge over_charge default_colour : Colour

pub data Command (F : Type 0) : Type 0 where
  set_speed : Motor → F → Command F
  enable : Motor → Bool → Command F
  set_ratio : F → Bool → Command F  -- the gate's ratio, and whether the caller waits
  led : Colour → Command F
  force_zero : Command F
  scale_tare : Command F
  delay : ℕ → Command F

abbrev pub Commands : Type 0 → Type 0
Commands F = List (Command F)

abbrev pub drives_coarse : Motor → Bool
drives_coarse coarse = true
drives_coarse fine = false
drives_coarse both = true

abbrev pub drives_fine : Motor → Bool
drives_fine coarse = false
drives_fine fine = true
drives_fine both = true

module _ {F : Type 0} ⦃fl : Floats F⦄ where
  -- A speed that is not finite is sent as zero. The queues that the source tests for are those that
  -- motors_init creates before any mode runs, so every speed is sent.
  unfoldable pub motor_set_speed : Motor → F → Commands F → Commands F
  motor_set_speed m v cs = set_speed m (if is_finite v then v else lit 0 0) ∷ cs

  -- A motor that is switched off is stopped too.
  unfoldable pub motor_enable : Motor → Bool → Commands F → Commands F
  unfolding motor_set_speed
  motor_enable m on cs =
      if on then enable m on ∷ cs else motor_set_speed m (lit 0 0) (enable m on ∷ cs)

  -- The speeds that the motors were last told; they stand still at the start.
  abbrev pub coarse_speed : Commands F → F
  coarse_speed [] = lit 0 0
  coarse_speed (set_speed m v ∷ cs) =
      let rest = coarse_speed cs in if drives_coarse m then v else rest
  coarse_speed (enable m on ∷ cs) = coarse_speed cs
  coarse_speed (set_ratio r wait ∷ cs) = coarse_speed cs
  coarse_speed (led c ∷ cs) = coarse_speed cs
  coarse_speed (force_zero ∷ cs) = coarse_speed cs
  coarse_speed (scale_tare ∷ cs) = coarse_speed cs
  coarse_speed (delay n ∷ cs) = coarse_speed cs

  abbrev pub fine_speed : Commands F → F
  fine_speed [] = lit 0 0
  fine_speed (set_speed m v ∷ cs) = let rest = fine_speed cs in if drives_fine m then v else rest
  fine_speed (enable m on ∷ cs) = fine_speed cs
  fine_speed (set_ratio r wait ∷ cs) = fine_speed cs
  fine_speed (led c ∷ cs) = fine_speed cs
  fine_speed (force_zero ∷ cs) = fine_speed cs
  fine_speed (scale_tare ∷ cs) = fine_speed cs
  fine_speed (delay n ∷ cs) = fine_speed cs
