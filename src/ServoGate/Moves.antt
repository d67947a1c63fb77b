-- ===== src/ServoGate/Moves.antt =====
-- What a request of the gate comes to: it is answered, and the gate arrives.
use open_trickler_rp2040_con.Prelude.{◌≡◌, ◌⊎◌, true, false, Option, none, some, [], ◌∷◌}
use open_trickler_rp2040_con.Float.{Floats, lit, ◌-◌, lt, eq, fabs}
use open_trickler_rp2040_con.ServoGate.{Gate, gate_disabled, clamp01, ratio_disabled}

-- The gate's last position.
abbrev pub position : {F : Type 0} → Gate F → Option F
position g = elim g.positions [ [] ↦ none | x ∷ xs ↦ some x ]

module _ {F : Type 0} ⦃fl : Floats F⦄ where
  -- A move has ended, with the shutters at `r`, or where they were and `r` is close by.
  abbrev pub Moved : F → Gate F → Gate F → Type 0
  Moved r g g' =
      (position g' ≡ some r)
      ⊎ ((position g' ≡ position g) × (lt (lit 1 4) (fabs (r - g.prev_open_ratio)) ≡ false))

  -- What an answered request leaves: the semaphore is given; and where the request was to switch off, the
  -- gate is off where it stood; where it was not, the gate's last position is the request's ratio, clamped
  -- to 0 to 1 (or the gate stayed where it was, its last target being no more than 0.0001 away) and that
  -- is the ratio reported.
  abbrev pub Served : F → Gate F → Gate F → Type 0
  Served ratio g g' =
      (g'.move_ready ≡ true)
      × (((eq ratio ratio_disabled ≡ true)
            × (g'.gate_state ≡ gate_disabled)
            × (g'.positions ≡ g.positions))
          ⊎ ((eq ratio ratio_disabled ≡ false)
              × (g'.gate_ratio ≡ clamp01 ratio)
              × (g'.prev_open_ratio ≡ clamp01 ratio)
              × Moved (clamp01 ratio) g g'))
