-- ===== src/Scale/Frame.antt =====
-- The listener loops of the drivers whose frames have a fixed size, one byte at a time.
use open_trickler_rp2040_con.Prelude.{ℕ, Bool, ◌&&◌, ◌==◌, if◌then◌else◌, List, [], ◌∷◌, set, inc8}
use open_trickler_rp2040_con.Scale.Port.{Scale, post}

-- The frame buffer and the index of the next byte, a uint8_t.
pub record Listener (F : Type 0) : Type 0 where
  pub frame : List ℕ
  pub byte_idx : ℕ
  pub scale : Scale F

abbrev pub newline : ℕ
newline = 10

module _ {F : Type 0} where
  -- One pass of the loop over a readable UART: `size` is the frame's, `accepts` its check (radwag's),
  -- and `decode` its measurement.
  unfoldable pub receive : ℕ → (List ℕ → Bool) → (List ℕ → F) → ℕ → Listener F → Listener F
  unfolding post
  receive size accepts decode ch l =
      let frame = set l.frame l.byte_idx ch in
      let idx = inc8 l.byte_idx in
      let full = idx == size in
      record {
        frame = frame;
        byte_idx = if ch == newline then 0 else if full then 0 else idx;
        scale = if full && accepts frame then post (decode frame) l.scale else l.scale;
      }

  -- The loop of jm_science_scale.c: a header byte starts a frame, and no byte ends one early.
  unfoldable pub jm_science_receive : (List ℕ → F) → ℕ → Listener F → Listener F
  unfolding post
  jm_science_receive decode ch l =
      let start = if ch == 0x45 then 0 else l.byte_idx in
      let frame = set l.frame start ch in
      let idx = inc8 start in
      record {
        frame = frame;
        byte_idx = if idx == 19 then 0 else idx;
        scale = if idx == 19 then post (decode frame) l.scale else l.scale;
      }

-- The bytes that arrive, in order.
abbrev pub feed : {S : Type 0} → (ℕ → S → S) → List ℕ → S → S
feed step [] l = l
feed step (ch ∷ cs) l = feed step cs (step ch l)
