-- ===== src/Scale/Line.antt =====
-- The drivers that read a line of any length: sartorius_scale.c and generic_scale.c.
use open_trickler_rp2040_con.Prelude.{
  ℕ, ◌&&◌, ◌||◌, ltb, leb, ◌==◌, if◌then◌else◌, none, some, List, [], ◌∷◌, get_or, set, take, drop,
  replicate, inc8,
}
use open_trickler_rp2040_con.Prelude.Int.{pos, neg}
use open_trickler_rp2040_con.Float.{Floats, lit, of_int, ◌*◌}
use open_trickler_rp2040_con.Scale.Port.{Text, Scale, post}
use open_trickler_rp2040_con.Scale.Frame.{newline}

-- A buffer of 32 bytes and the index of the next one, a uint8_t.
pub record LineBuffer (F : Type 0) : Type 0 where
  pub buffer : List ℕ
  pub index : ℕ
  pub scale : Scale F

abbrev pub carriage_return : ℕ
carriage_return = 13

abbrev pub skip_spaces : List ℕ → List ℕ
skip_spaces [] = []
skip_spaces (ch ∷ cs) = let rest = skip_spaces cs in if ch == 0x20 then rest else ch ∷ cs

-- The search of generic_scale.c for the start of a number: a NUL, a digit or a sign stops it.
unfoldable pub number_start : List ℕ → List ℕ
number_start [] = []
number_start (ch ∷ cs) =
    let rest = number_start cs in
    let digit = leb 0x30 ch && leb ch 0x39 in
    if (ch == 0) || (digit || ((ch == 0x2d) || (ch == 0x2b))) then ch ∷ cs else rest

module _ {F : Type 0} ⦃fl : Floats F⦄ (text : Text F) where
  -- `strtof` with no end pointer: zero where it converts nothing.
  unfoldable pub number_or_zero : List ℕ → F
  number_or_zero [] = lit 0 0
  number_or_zero (ch ∷ cs) = elim (text.strtof (ch ∷ cs)) [ none ↦ lit 0 0 | some value ↦ value ]

  unfoldable pub sartorius_decode : List ℕ → F
  unfolding number_or_zero
  sartorius_decode msg =
      let first = get_or msg 0 0 in
      let minus = first == 0x2d in
      let plus = first == 0x2b in
      let body = if minus || plus then drop 1 msg else msg in
      of_int (if minus then neg (pos 1) else pos 1) * number_or_zero (skip_spaces body)

  unfoldable pub sartorius_receive : ℕ → LineBuffer F → LineBuffer F
  unfolding sartorius_decode post
  sartorius_receive ch b =
      if (ch == carriage_return) || (ch == newline)
      then (if b.index == 0 then b else record {
        buffer = replicate 32 0;
        index = 0;
        scale = post (sartorius_decode (take b.index b.buffer)) b.scale;
      })
      else if ltb b.index 31
      then record b { buffer = set b.buffer b.index ch; index = inc8 b.index }
      else record b { buffer = replicate 32 0; index = 0 }

  -- What the end of a line posts: nothing, if no number is found.
  unfoldable pub post_number : List ℕ → Scale F → Scale F
  unfolding number_start post
  post_number line s = elim (text.strtof (number_start line)) [
    | none ↦ s
    | some weight ↦ post weight s
  ]

  unfoldable pub generic_receive : ℕ → LineBuffer F → LineBuffer F
  unfolding post_number
  generic_receive ch b =
      let at = if leb 31 b.index then 0 else b.index in
      let buffer = set b.buffer at ch in
      let end = ch == newline in
      record {
        buffer = if end then set buffer (inc8 at) 0 else buffer;
        index = if end then 0 else inc8 at;
        scale = if end then post_number (take (inc8 at) buffer) b.scale else b.scale;
      }
