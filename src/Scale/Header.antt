-- ===== src/Scale/Header.antt =====
-- Framing by header, as jm_science_scale.c does it: an `E` starts a frame wherever it comes.
use Prim.Native.Nat.{◌+◌, ◌%◌}
use open_trickler_rp2040_con.Prelude.{
  append_assoc, ℕ, suc, ◌<◌, ◌≡◌, ◌≢◌, refl, ap, ap₂, sym, ◌∙◌, true, false, ◌==◌, List, [], ◌∷◌,
  ◌++◌, length, length-set, set, take, arith,
}
use open_trickler_rp2040_con.Scale.Port.{post}
use open_trickler_rp2040_con.Scale.Frame.{Listener, jm_science_receive, feed}
use open_trickler_rp2040_con.Scale.Framing.{Free, IsValid, received, take-set, take-length}

abbrev pub header : ℕ
header = 0x45

module _ {F : Type 0} (decode : List ℕ → F) where
  jm_science_receive-IsValid :
      (ch : ℕ) (l : Listener F) → IsValid 19 l → IsValid 19 (jm_science_receive decode ch l)
  unfolding jm_science_receive
  jm_science_receive-IsValid ch l v = record {
    buffer = length-set l.frame _ ch ∙ v.buffer;
    inside = ground (arith, v.inside);
  }

  -- Whatever arrives, no byte is stored outside the frame buffer.
  pub jm_science_receive-bounded :
      (bytes : List ℕ) (l : Listener F)
      → IsValid 19 l
      → IsValid 19 (feed (jm_science_receive decode) bytes l)
  jm_science_receive-bounded [] l v = v
  jm_science_receive-bounded (ch ∷ cs) l v =
      jm_science_receive-bounded cs (jm_science_receive decode ch l)
        (jm_science_receive-IsValid ch l v)

  header_starts :
      (l : Listener F)
      → IsValid 19 l
      → let l' = jm_science_receive decode header l in
        (l'.byte_idx ≡ 1) × (received l' ≡ header ∷ []) × (l'.scale ≡ l.scale)
  unfolding jm_science_receive
  header_starts l v = (refl, take-set l.frame 0 header (omega (arith, v.buffer)), refl)

  middle :
      (ch : ℕ) (l : Listener F)
      → IsValid 19 l
      → ch ≢ header
      → suc l.byte_idx < 19
      → let l' = jm_science_receive decode ch l in
        (l'.byte_idx ≡ suc l.byte_idx)
        × (received l' ≡ received l ++ (ch ∷ []))
        × (l'.scale ≡ l.scale)
  unfolding jm_science_receive
  middle ch l v ne h =
      let inc : (l.byte_idx + 1) % 256 ≡ suc l.byte_idx = omega arith in
      let inside_frame : (ch == header) ≡ false = ground arith in
      let short : (suc l.byte_idx == 19) ≡ false = ground arith in
      rw (inside_frame, inc, short)
        (refl, take-set l.frame l.byte_idx ch (omega (arith, v.buffer)), refl)

  last :
      (ch : ℕ) (l : Listener F)
      → IsValid 19 l
      → ch ≢ header
      → suc l.byte_idx ≡ 19
      → let l' = jm_science_receive decode ch l in
        (l'.byte_idx ≡ 0) × (l'.scale ≡ post (decode (received l ++ (ch ∷ []))) l.scale)
  unfolding jm_science_receive
  last ch l v ne h =
      let inc : (l.byte_idx + 1) % 256 ≡ suc l.byte_idx = omega arith in
      let inside_frame : (ch == header) ≡ false = ground arith in
      let full : (suc l.byte_idx == 19) ≡ true = ground arith in
      let frame = set l.frame l.byte_idx ch in
      let whole : frame ≡ received l ++ (ch ∷ []) =
        sym (take-length frame)
        ∙ ap (λ n. take n frame) (length-set l.frame l.byte_idx ch ∙ v.buffer ∙ sym h)
        ∙ take-set l.frame l.byte_idx ch (omega (arith, v.buffer)) in
      rw (inside_frame, inc, full) (refl, ap (λ f. post (decode f) l.scale) whole)

  rest_of_frame :
      (cs : List ℕ) (ch : ℕ) (l : Listener F)
      → IsValid 19 l
      → Free header cs
      → ch ≢ header
      → l.byte_idx + suc (length cs) ≡ 19
      → let l' = feed (jm_science_receive decode) (cs ++ (ch ∷ [])) l in
        (l'.byte_idx ≡ 0) × (l'.scale ≡ post (decode (received l ++ (cs ++ (ch ∷ [])))) l.scale)
  rest_of_frame [] ch l v free ne h = last ch l v ne (omega arith)
  rest_of_frame (c ∷ cs) ch l v free ne h =
      let m = middle c l v free.0 (omega arith) in
      let l1 = jm_science_receive decode c l in
      let r =
        rest_of_frame cs ch l1 (jm_science_receive-IsValid c l v) free.1 ne (omega (arith, m.0)) in
      let whole : received l1 ++ (cs ++ (ch ∷ [])) ≡ received l ++ (c ∷ (cs ++ (ch ∷ []))) =
        ap (λ bs. bs ++ (cs ++ (ch ∷ []))) m.1 ∙ append_assoc (received l) (c ∷ []) _ in
      (r.0, r.1 ∙ ap₂ (λ f s. post (decode f) s) whole m.2)

  -- A frame of 19 bytes, with an `E` at its start and nowhere else, is decoded as it is and its
  -- measurement posted, whatever came before it.
  frame_after_header :
      (bytes cs : List ℕ) (ch : ℕ) (l : Listener F)
      → IsValid 19 l
      → Free header cs
      → ch ≢ header
      → length cs ≡ 17
      → let l0 = feed (jm_science_receive decode) bytes l in
        let frame = header ∷ (cs ++ (ch ∷ [])) in
        let l1 = feed (jm_science_receive decode) frame l0 in
        (l1.byte_idx ≡ 0) × (l1.scale ≡ post (decode frame) l0.scale)
  frame_after_header bytes cs ch l v free ne h =
      let l0 = feed (jm_science_receive decode) bytes l in
      let v0 = jm_science_receive-bounded bytes l v in
      let start = header_starts l0 v0 in
      let l1 = jm_science_receive decode header l0 in
      let r =
        rest_of_frame cs ch l1 (jm_science_receive-IsValid header l0 v0) free ne
          (omega (arith, start.0)) in
      (r.0, r.1 ∙ ap₂ (λ bs s. post (decode (bs ++ (cs ++ (ch ∷ [])))) s) start.1 start.2)
