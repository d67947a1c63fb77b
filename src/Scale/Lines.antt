-- ===== src/Scale/Lines.antt =====
-- Framing by line, as sartorius_scale.c and generic_scale.c do it.
pub mod Generic
use Prim.Native.Nat.{◌+◌, ◌%◌}
use open_trickler_rp2040_con.Prelude.{
  append_assoc, ℕ, suc, ◌≤◌, ◌<◌, ◌≡◌, ◌≢◌, refl, ap, ap₂, sym, ◌∙◌, true, false, ◌||◌, ltb, leb,
  ◌==◌, if◌then◌else◌, List, [], ◌∷◌, ◌++◌, length, length-set, length-replicate, set, take, arith,
  Bool-cases, inl, inr,
}
use open_trickler_rp2040_con.Float.{Floats}
use open_trickler_rp2040_con.Scale.Port.{Text, post}
use open_trickler_rp2040_con.Scale.Frame.{newline, feed}
use open_trickler_rp2040_con.Scale.Framing.{Free, take-set, feed-append}
use open_trickler_rp2040_con.Scale.Line.{
  LineBuffer, carriage_return, sartorius_decode, sartorius_receive, post_number, generic_receive,
}

-- The buffer has 32 bytes, and the index leaves room for the terminator.
pub record IsValid {F : Type 0} (b : LineBuffer F) : Type 0 where
  pub size : length b.buffer ≡ 32
  pub index_le : b.index ≤ 31

-- What has arrived of the current line.
abbrev pub line : {F : Type 0} → LineBuffer F → List ℕ
line b = take b.index b.buffer

pub append_nil : (xs : List ℕ) → xs ++ [] ≡ xs
append_nil [] = refl
append_nil (x ∷ xs) = ap (λ l. x ∷ l) (append_nil xs)

module _ {F : Type 0} ⦃fl : Floats F⦄ (text : Text F) where
  sartorius_receive-IsValid :
      (ch : ℕ) (b : LineBuffer F) → IsValid b → IsValid (sartorius_receive text ch b)
  unfolding sartorius_receive
  sartorius_receive-IsValid ch b v =
      let set_size = length-set b.buffer b.index ch in
      let clear_size = length-replicate {A = ℕ} 32 0 in
      ground (arith, v.size, v.index_le, set_size, clear_size)

  -- Whatever arrives, no byte is stored outside the buffer.
  pub sartorius_receive-bounded :
      (bytes : List ℕ) (b : LineBuffer F)
      → IsValid b
      → IsValid (feed (sartorius_receive text) bytes b)
  sartorius_receive-bounded [] b v = v
  sartorius_receive-bounded (ch ∷ cs) b v =
      sartorius_receive-bounded cs (sartorius_receive text ch b) (sartorius_receive-IsValid ch b v)

  sartorius-middle :
      (ch : ℕ) (b : LineBuffer F)
      → IsValid b
      → ch ≢ carriage_return
      → ch ≢ newline
      → b.index < 31
      → let b' = sartorius_receive text ch b in
        (b'.index ≡ suc b.index) × (line b' ≡ line b ++ (ch ∷ [])) × (b'.scale ≡ b.scale)
  unfolding sartorius_receive
  sartorius-middle ch b v ne ne' h =
      let inc : (b.index + 1) % 256 ≡ suc b.index = omega arith in
      let open_line : ((ch == carriage_return) || (ch == newline)) ≡ false = ground arith in
      let room : ltb b.index 31 ≡ true = ground arith in
      rw (open_line, room, inc) (refl, take-set b.buffer b.index ch (omega (arith, v.size)), refl)

  sartorius-chars :
      (cs : List ℕ) (b : LineBuffer F)
      → IsValid b
      → Free carriage_return cs
      → Free newline cs
      → b.index + length cs ≤ 31
      → let b' = feed (sartorius_receive text) cs b in
        (b'.index ≡ b.index + length cs) × (line b' ≡ line b ++ cs) × (b'.scale ≡ b.scale)
  sartorius-chars [] b v no_cr no_nl h = (omega arith, sym (append_nil (line b)), refl)
  sartorius-chars (c ∷ cs) b v no_cr no_nl h =
      let m = sartorius-middle c b v no_cr.0 no_nl.0 (omega arith) in
      let b1 = sartorius_receive text c b in
      let r =
        sartorius-chars cs b1 (sartorius_receive-IsValid c b v) no_cr.1 no_nl.1
          (omega (arith, m.0)) in
      (
        omega (arith, r.0, m.0),
        r.1 ∙ ap (λ bs. bs ++ cs) m.1 ∙ append_assoc (line b) (c ∷ []) cs,
        r.2 ∙ m.2,
      )

  sartorius-end :
      (b : LineBuffer F)
      → let b' = sartorius_receive text carriage_return b in
        (b'.index ≡ 0)
        × (b'.scale
            ≡ (if b.index == 0 then b.scale else post (sartorius_decode text (line b)) b.scale))
  unfolding sartorius_receive
  sartorius-end b = elim (Bool-cases (b.index == 0)) [
    | inl empty ↦ rw empty (ground (arith, empty), refl)
    | inr some_bytes ↦ rw some_bytes (refl, refl)
  ]

  -- After a carriage return, whatever came before it, a line of 1 to 31 bytes (none of them a line end)
  -- that a carriage return closes is decoded as it is, and its measurement posted.
  sartorius_line :
      (bytes cs : List ℕ) (b : LineBuffer F)
      → IsValid b
      → Free carriage_return cs
      → Free newline cs
      → 1 ≤ length cs
      → length cs ≤ 31
      → let b0 = feed (sartorius_receive text) (bytes ++ (carriage_return ∷ [])) b in
        let b1 = feed (sartorius_receive text) (cs ++ (carriage_return ∷ [])) b0 in
        (b1.index ≡ 0) × (b1.scale ≡ post (sartorius_decode text cs) b0.scale)
  sartorius_line bytes cs b v no_cr no_nl some_bytes short =
      let step = sartorius_receive text in
      let b0 = feed step (bytes ++ (carriage_return ∷ [])) b in
      let start : b0.index ≡ 0 =
        ap (λ l. l.index) (feed-append step bytes (carriage_return ∷ []) b)
        ∙ (sartorius-end (feed step bytes b)).0 in
      let v0 = sartorius_receive-bounded (bytes ++ (carriage_return ∷ [])) b v in
      let r = sartorius-chars cs b0 v0 no_cr no_nl (omega (arith, start)) in
      let none_yet : line b0 ≡ [] = ap (λ n. take n b0.buffer) start in
      let e = sartorius-end (feed step cs b0) in
      let full : ((feed step cs b0).index == 0) ≡ false = ground (arith, r.0, start, some_bytes) in
      let closed = feed-append step cs (carriage_return ∷ []) b0 in
      (
        ap (λ l. l.index) closed ∙ e.0,
        ap (λ l. l.scale) closed
            ∙ e.1
            ∙ rw full (
                ap₂ (λ l s. post (sartorius_decode text l) s) (r.1 ∙ ap (λ bs. bs ++ cs) none_yet)
                  r.2),
      )
