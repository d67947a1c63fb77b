-- ===== src/Scale/Lines/Generic.antt =====
-- Framing by line in generic_scale.c.
use Prim.Native.Nat.{◌+◌, ◌%◌}
use open_trickler_rp2040_con.Prelude.{
  append_assoc, ℕ, suc, ◌≤◌, ◌<◌, ◌≡◌, ◌≢◌, refl, ap, ap₂, sym, ◌∙◌, false, leb, ◌==◌,
  if◌then◌else◌, List, [], ◌∷◌, ◌++◌, length, length-set, set, take, arith,
}
use open_trickler_rp2040_con.Float.{Floats}
use open_trickler_rp2040_con.Scale.Port.{Text}
use open_trickler_rp2040_con.Scale.Frame.{newline, feed}
use open_trickler_rp2040_con.Scale.Framing.{Free, take-set, feed-append}
use open_trickler_rp2040_con.Scale.Line.{LineBuffer, post_number, generic_receive}
use open_trickler_rp2040_con.Scale.Lines.{IsValid, line, append_nil}

module _ {F : Type 0} ⦃fl : Floats F⦄ (text : Text F) where
  generic_receive-IsValid :
      (ch : ℕ) (b : LineBuffer F) → IsValid b → IsValid (generic_receive text ch b)
  unfolding generic_receive
  generic_receive-IsValid ch b v = record {
    size = ground (
      arith,
      length-set b.buffer (if leb 31 b.index then 0 else b.index) ch,
      length-set (set b.buffer (if leb 31 b.index then 0 else b.index) ch)
          (((if leb 31 b.index then 0 else b.index) + 1) % 256) 0,
      v.size,
    );
    index_le = ground (arith, v.index_le);
  }

  -- Whatever arrives, no byte is stored outside the buffer.
  pub generic_receive-bounded :
      (bytes : List ℕ) (b : LineBuffer F)
      → IsValid b
      → IsValid (feed (generic_receive text) bytes b)
  generic_receive-bounded [] b v = v
  generic_receive-bounded (ch ∷ cs) b v =
      generic_receive-bounded cs (generic_receive text ch b) (generic_receive-IsValid ch b v)

  generic-middle :
      (ch : ℕ) (b : LineBuffer F)
      → IsValid b
      → ch ≢ newline
      → b.index < 31
      → let b' = generic_receive text ch b in
        (b'.index ≡ suc b.index) × (line b' ≡ line b ++ (ch ∷ [])) × (b'.scale ≡ b.scale)
  unfolding generic_receive
  generic-middle ch b v ne h =
      let room : leb 31 b.index ≡ false = ground arith in
      let inc : (b.index + 1) % 256 ≡ suc b.index = omega arith in
      let open_line : (ch == newline) ≡ false = ground arith in
      rw (room, open_line, inc) (refl, take-set b.buffer b.index ch (omega (arith, v.size)), refl)

  generic-chars :
      (cs : List ℕ) (b : LineBuffer F)
      → IsValid b
      → Free newline cs
      → b.index + length cs ≤ 31
      → let b' = feed (generic_receive text) cs b in
        (b'.index ≡ b.index + length cs) × (line b' ≡ line b ++ cs) × (b'.scale ≡ b.scale)
  generic-chars [] b v no_nl h = (omega arith, sym (append_nil (line b)), refl)
  generic-chars (c ∷ cs) b v no_nl h =
      let m = generic-middle c b v no_nl.0 (omega arith) in
      let b1 = generic_receive text c b in
      let r = generic-chars cs b1 (generic_receive-IsValid c b v) no_nl.1 (omega (arith, m.0)) in
      (
        omega (arith, r.0, m.0),
        r.1 ∙ ap (λ bs. bs ++ cs) m.1 ∙ append_assoc (line b) (c ∷ []) cs,
        r.2 ∙ m.2,
      )

  generic-start : (b : LineBuffer F) → (generic_receive text newline b).index ≡ 0
  unfolding generic_receive
  generic-start b = refl

  generic-end :
      (b : LineBuffer F)
      → IsValid b
      → b.index < 31
      → (generic_receive text newline b).scale ≡ post_number text (line b ++ (newline ∷ [])) b.scale
  unfolding generic_receive
  generic-end b v h =
      let room : leb 31 b.index ≡ false = ground arith in
      let inc : (b.index + 1) % 256 ≡ suc b.index = omega arith in
      rw (room, inc)
        (ap (λ l. post_number text l b.scale)
          (take-set b.buffer b.index newline (omega (arith, v.size))))

  -- After a newline, whatever came before it, the number of a line of at most 30 bytes and its newline is
  -- posted, if the line has one.
  generic_line :
      (bytes cs : List ℕ) (b : LineBuffer F)
      → IsValid b
      → Free newline cs
      → length cs ≤ 30
      → let b0 = feed (generic_receive text) (bytes ++ (newline ∷ [])) b in
        let b1 = feed (generic_receive text) (cs ++ (newline ∷ [])) b0 in
        (b1.index ≡ 0) × (b1.scale ≡ post_number text (cs ++ (newline ∷ [])) b0.scale)
  generic_line bytes cs b v no_nl short =
      let step = generic_receive text in
      let b0 = feed step (bytes ++ (newline ∷ [])) b in
      let start : b0.index ≡ 0 =
        ap (λ l. l.index) (feed-append step bytes (newline ∷ []) b)
        ∙ generic-start (feed step bytes b) in
      let v0 = generic_receive-bounded (bytes ++ (newline ∷ [])) b v in
      let r = generic-chars cs b0 v0 no_nl (omega (arith, start)) in
      let none_yet : line b0 ≡ [] = ap (λ n. take n b0.buffer) start in
      let v1 = generic_receive-bounded cs b0 v0 in
      let closed = feed-append step cs (newline ∷ []) b0 in
      (
        ap (λ l. l.index) closed ∙ generic-start (feed step cs b0),
        ap (λ l. l.scale) closed
            ∙ generic-end (feed step cs b0) v1 (omega (arith, r.0, start))
            ∙ ap₂ (λ l s. post_number text (l ++ (newline ∷ [])) s)
                (r.1 ∙ ap (λ bs. bs ++ cs) none_yet) r.2,
      )
