-- ===== src/Scale/Framing.antt =====
-- Framing by size: bytes go to their place, a whole frame is decoded, and a newline starts afresh.
use Prim.Native.Nat.{◌+◌, ◌%◌}
use open_trickler_rp2040_con.Prelude.{
  append_assoc, ℕ, zero, suc, ◌≤◌, ◌<◌, ◌≡◌, ◌≢◌, refl, ap, ap₂, sym, ◌∙◌, Bool, true, false, ◌==◌,
  if◌then◌else◌, List, [], ◌∷◌, ◌++◌, length, length-set, set, take, arith,
}
use open_trickler_rp2040_con.Scale.Port.{Scale, post}
use open_trickler_rp2040_con.Scale.Frame.{Listener, newline, receive, feed}

-- None of the bytes is `mark`.
abbrev pub Free : ℕ → List ℕ → Type 0
Free mark [] = zero ≡ zero
Free mark (ch ∷ cs) = (ch ≢ mark) × Free mark cs

pub take-set :
    (xs : List ℕ) (i ch : ℕ) → i < length xs → take (suc i) (set xs i ch) ≡ take i xs ++ (ch ∷ [])
take-set [] i ch h = absurd (omega arith)
take-set (x ∷ xs) zero ch h = refl
take-set (x ∷ xs) (suc i) ch h = ap (λ l. x ∷ l) (take-set xs i ch (omega arith))

pub take-length : (xs : List ℕ) → take (length xs) xs ≡ xs
take-length [] = refl
take-length (x ∷ xs) = ap (λ l. x ∷ l) (take-length xs)

pub feed-append :
    {S : Type 0} (step : ℕ → S → S) (xs ys : List ℕ) (l : S)
    → feed step (xs ++ ys) l ≡ feed step ys (feed step xs l)
feed-append step [] ys l = refl
feed-append step (x ∷ xs) ys l = feed-append step xs ys (step x l)

module _ {F : Type 0} where
  -- The buffer has the frame's size, and the index is inside it.
  pub record IsValid (size : ℕ) (l : Listener F) : Type 0 where
    pub buffer : length l.frame ≡ size
    pub inside : l.byte_idx < size

  -- What has arrived of the current frame.
  abbrev pub received : Listener F → List ℕ
  received l = take l.byte_idx l.frame

  module _ (size : ℕ) (accepts : List ℕ → Bool) (decode : List ℕ → F) (small : size ≤ 255) where
    -- The scale after a frame.
    abbrev pub outcome : List ℕ → Scale F → Scale F
    outcome frame s = if accepts frame then post (decode frame) s else s

    receive-IsValid :
        (ch : ℕ) (l : Listener F) → IsValid size l → IsValid size (receive size accepts decode ch l)
    unfolding receive
    receive-IsValid ch l v = record {
      buffer = length-set l.frame l.byte_idx ch ∙ v.buffer;
      inside = ground (arith, v.inside);
    }

    -- A byte that neither ends the line nor the frame.
    receive-middle :
        (ch : ℕ) (l : Listener F)
        → IsValid size l
        → ch ≢ newline
        → suc l.byte_idx < size
        → let l' = receive size accepts decode ch l in
          (l'.byte_idx ≡ suc l.byte_idx)
          × (received l' ≡ received l ++ (ch ∷ []))
          × (l'.scale ≡ l.scale)
    unfolding receive
    receive-middle ch l v ne h =
        let inc : (l.byte_idx + 1) % 256 ≡ suc l.byte_idx = omega arith in
        let open_line : (ch == newline) ≡ false = ground arith in
        let short : (suc l.byte_idx == size) ≡ false = ground arith in
        rw (inc, open_line, short) (refl, take-set l.frame l.byte_idx ch (omega arith), refl)

    -- The byte that fills the frame.
    receive-last :
        (ch : ℕ) (l : Listener F)
        → IsValid size l
        → suc l.byte_idx ≡ size
        → let l' = receive size accepts decode ch l in
          let frame = received l ++ (ch ∷ []) in
          (l'.byte_idx ≡ 0) × (l'.scale ≡ outcome frame l.scale)
    unfolding receive
    receive-last ch l v h =
        let inc : (l.byte_idx + 1) % 256 ≡ suc l.byte_idx = omega arith in
        let full : (suc l.byte_idx == size) ≡ true = ground arith in
        let frame = set l.frame l.byte_idx ch in
        let whole : frame ≡ received l ++ (ch ∷ []) =
          sym (take-length frame)
          ∙ ap (λ n. take n frame) (length-set l.frame l.byte_idx ch ∙ v.buffer ∙ sym h)
          ∙ take-set l.frame l.byte_idx ch (omega arith) in
        rw (inc, full, whole) (ground arith, refl)

    -- Whatever arrives, no byte is stored outside the frame buffer.
    receive-bounded :
        (bytes : List ℕ) (l : Listener F)
        → IsValid size l
        → IsValid size (feed (receive size accepts decode) bytes l)
    receive-bounded [] l v = v
    receive-bounded (ch ∷ cs) l v =
        receive-bounded cs (receive size accepts decode ch l) (receive-IsValid ch l v)

    -- The rest of a frame, whose bytes before the last hold no newline.
    rest_of_frame :
        (cs : List ℕ) (ch : ℕ) (l : Listener F)
        → IsValid size l
        → Free newline cs
        → l.byte_idx + suc (length cs) ≡ size
        → let l' = feed (receive size accepts decode) (cs ++ (ch ∷ [])) l in
          let frame = received l ++ (cs ++ (ch ∷ [])) in
          (l'.byte_idx ≡ 0) × (l'.scale ≡ outcome frame l.scale)
    rest_of_frame [] ch l v free h = receive-last ch l v (omega arith)
    rest_of_frame (c ∷ cs) ch l v free h =
        let m = receive-middle c l v free.0 (omega arith) in
        let l1 = receive size accepts decode c l in
        let r = rest_of_frame cs ch l1 (receive-IsValid c l v) free.1 (omega (arith, m.0)) in
        let whole : received l1 ++ (cs ++ (ch ∷ [])) ≡ received l ++ (c ∷ (cs ++ (ch ∷ []))) =
          ap (λ bs. bs ++ (cs ++ (ch ∷ []))) m.1 ∙ append_assoc (received l) (c ∷ []) _ in
        (r.0, r.1 ∙ ap₂ outcome whole m.2)

    -- A byte that does not fill the frame posts nothing.
    receive-quiet :
        (ch : ℕ) (l : Listener F)
        → suc l.byte_idx < size
        → (receive size accepts decode ch l).scale ≡ l.scale
    unfolding receive
    receive-quiet ch l h =
        let inc : (l.byte_idx + 1) % 256 ≡ suc l.byte_idx = omega arith in
        let short : (suc l.byte_idx == size) ≡ false = ground arith in rw (inc, short) refl

    -- A line that stays short of the frame.
    rest_of_line :
        (cs : List ℕ) (ch : ℕ) (l : Listener F)
        → IsValid size l
        → Free newline cs
        → suc (l.byte_idx + length cs) < size
        → (feed (receive size accepts decode) (cs ++ (ch ∷ [])) l).scale ≡ l.scale
    rest_of_line [] ch l v free h = receive-quiet ch l (omega arith)
    rest_of_line (c ∷ cs) ch l v free h =
        let m = receive-middle c l v free.0 (omega arith) in
        rest_of_line cs ch (receive size accepts decode c l) (receive-IsValid c l v) free.1
          (omega (arith, m.0))
        ∙ m.2

    receive-newline : (l : Listener F) → (receive size accepts decode newline l).byte_idx ≡ 0
    unfolding receive
    receive-newline l = refl

    line_end :
        (bytes : List ℕ) (l : Listener F)
        → (feed (receive size accepts decode) (bytes ++ (newline ∷ [])) l).byte_idx ≡ 0
    line_end bytes l =
        rw (feed-append (receive size accepts decode) bytes (newline ∷ []) l) (receive-newline _)

    -- After a newline, whatever came before it, a frame is decoded as it is: its bytes (no newline but the
    -- last one), all of them, are the frame, and its measurement is posted if the driver accepts it.
    pub frame_after_newline :
        (bytes cs : List ℕ) (ch : ℕ) (l : Listener F)
        → IsValid size l
        → Free newline cs
        → suc (length cs) ≡ size
        → let l0 = feed (receive size accepts decode) (bytes ++ (newline ∷ [])) l in
          let frame = cs ++ (ch ∷ []) in
          let l1 = feed (receive size accepts decode) frame l0 in
          (l1.byte_idx ≡ 0) × (l1.scale ≡ outcome frame l0.scale)
    frame_after_newline bytes cs ch l v free h =
        let l0 = feed (receive size accepts decode) (bytes ++ (newline ∷ [])) l in
        let start : l0.byte_idx ≡ 0 = line_end bytes l in
        let r =
          rest_of_frame cs ch l0 (receive-bounded (bytes ++ (newline ∷ [])) l v) free
            (omega (arith, start)) in
        let none_yet : received l0 ≡ [] = ap (λ n. take n l0.frame) start in
        (r.0, r.1 ∙ rw none_yet refl)

    -- A line that is too short for a frame posts nothing.
    short_line :
        (bytes cs : List ℕ) (l : Listener F)
        → IsValid size l
        → Free newline cs
        → suc (length cs) < size
        → let l0 = feed (receive size accepts decode) (bytes ++ (newline ∷ [])) l in
          let l1 = feed (receive size accepts decode) (cs ++ (newline ∷ [])) l0 in
          (l1.byte_idx ≡ 0) × (l1.scale ≡ l0.scale)
    short_line bytes cs l v free h =
        let l0 = feed (receive size accepts decode) (bytes ++ (newline ∷ [])) l in
        let start : l0.byte_idx ≡ 0 = line_end bytes l in
        let v0 = receive-bounded (bytes ++ (newline ∷ [])) l v in
        (line_end cs l0, rest_of_line cs newline l0 v0 free (omega (arith, start)))
