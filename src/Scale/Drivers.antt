-- ===== src/Scale/Drivers.antt =====
-- The drivers whose frames have a fixed size: how each decodes a frame, and its listener's step.
use open_trickler_rp2040_con.Prelude.{
  ℕ, Bool, true, ◌&&◌, ◌==◌, if◌then◌else◌, none, some, List, drop, take, get_or,
}
use open_trickler_rp2040_con.Prelude.Int.{pos, neg}
use open_trickler_rp2040_con.Float.{Floats, of_int, ◌*◌}
use open_trickler_rp2040_con.Scale.Port.{Text}
use open_trickler_rp2040_con.Scale.Frame.{Listener, receive, jm_science_receive}

-- The check of radwag_scale.c: the frame starts with "SUI".
unfoldable pub radwag_accepts : List ℕ → Bool
radwag_accepts frame =
    (get_or frame 0 0 == 0x53) && ((get_or frame 1 0 == 0x55) && (get_or frame 2 0 == 0x49))

module _ {F : Type 0} ⦃fl : Floats F⦄ (text : Text F) where
  -- strtof on the bytes from a field on: the field has no terminator, so the rest of the frame follows.
  unfoldable pub number : List ℕ → F
  number bytes = elim (text.strtof bytes) [ none ↦ text.nanf bytes | some weight ↦ weight ]

  -- The same with the sign that the frame holds before the field.
  unfoldable pub signed_number : ℕ → List ℕ → F
  signed_number symbol bytes = elim (text.strtof bytes) [
    | none ↦ text.nanf bytes
    | some weight ↦ weight * of_int (if symbol == 0x2d then neg (pos 1) else pos 1)
  ]

  unfoldable pub and_decode : List ℕ → F
  unfolding number
  and_decode frame = number (drop 3 frame)

  unfoldable pub and_receive : ℕ → Listener F → Listener F
  unfolding and_decode receive
  and_receive = receive 17 (λ frame. true) and_decode

  unfoldable pub steinberg_decode : List ℕ → F
  unfolding number
  steinberg_decode frame = number (drop 2 frame)

  unfoldable pub steinberg_receive : ℕ → Listener F → Listener F
  unfolding steinberg_decode receive
  steinberg_receive = receive 16 (λ frame. true) steinberg_decode

  unfoldable pub gng_decode : List ℕ → F
  unfolding signed_number
  gng_decode frame = signed_number (get_or frame 0 0) (drop 2 frame)

  unfoldable pub gng_receive : ℕ → Listener F → Listener F
  unfolding gng_decode receive
  gng_receive = receive 14 (λ frame. true) gng_decode

  unfoldable pub ussolid_decode : List ℕ → F
  unfolding signed_number
  ussolid_decode frame = signed_number (get_or frame 0 0) (drop 2 frame)

  unfoldable pub ussolid_receive : ℕ → Listener F → Listener F
  unfolding ussolid_decode receive
  ussolid_receive = receive 15 (λ frame. true) ussolid_decode

  unfoldable pub creedmoor_decode : List ℕ → F
  unfolding signed_number
  creedmoor_decode frame = signed_number (get_or frame 0 0) (drop 1 frame)

  unfoldable pub creedmoor_receive : ℕ → Listener F → Listener F
  unfolding creedmoor_decode receive
  creedmoor_receive = receive 14 (λ frame. true) creedmoor_decode

  -- The twelve bytes of the mass, copied and terminated.
  unfoldable pub radwag_decode : List ℕ → F
  unfolding number
  radwag_decode frame = number (take 12 (drop 4 frame))

  unfoldable pub radwag_receive : ℕ → Listener F → Listener F
  unfolding radwag_decode radwag_accepts receive
  radwag_receive = receive 21 radwag_accepts radwag_decode

  unfoldable pub jm_science_decode : List ℕ → F
  unfolding signed_number
  jm_science_decode frame = signed_number (get_or frame 3 0) (drop 4 frame)

  unfoldable pub jm_science_step : ℕ → Listener F → Listener F
  unfolding jm_science_decode jm_science_receive
  jm_science_step = jm_science_receive jm_science_decode
