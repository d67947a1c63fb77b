-- ===== src/Ota/Staging.antt =====
-- The loops of httpd_post_receive_data: what they leave in the buffer and in the flash.
use mathlib.Core.Path.{subst}
use Prim.Native.Nat.{◌+◌, ◌*◌, ◌%◌}
use open_trickler_rp2040_con.Prelude.{
  ℕ, zero, suc, ◌≤◌, ◌<◌, ◌≡◌, refl, sym, ap, ◌∙◌, inl, inr, Bool, true, false, ◌==◌, Bool-cases,
  List, [], ◌∷◌, ◌++◌, length, take, drop, length-append, length-take, length-drop,
  take-append-drop, get_or-append_left, drop-all, append_assoc, append_nil, ==→eq, arith,
}
use open_trickler_rp2040_con.Ota.{
  Flash, Board, Ota, stage_offset, flush_sector, chunk_size, copy_chunk, flush_if_full, copy_buffer,
  copy_chain,
}
use open_trickler_rp2040_con.Ota.Memory.{IsFlash, IsBoard}
use open_trickler_rp2040_con.Ota.Sector.{
  copy_chunk-Buffered, Holds, Staged, flush_sector-Staged, flush_sector-Below,
}

-- The bytes of a chain.
abbrev pub concat : List (List ℕ) → List ℕ
concat [] = []
concat (d ∷ ds) = d ++ concat ds

-- What the loops leave alone.
pub record Keeps (o o' : Ota) : Type 0 where
  pub state : o'.ota_state ≡ o.ota_state
  pub expected : o'.ota_expected ≡ o.ota_expected
  pub connection : o'.ota_connection ≡ o.ota_connection

Keeps-refl : (o : Ota) → Keeps o o
Keeps-refl o = record { state = refl; expected = refl; connection = refl }

Keeps-trans : (o o' o'' : Ota) → Keeps o o' → Keeps o' o'' → Keeps o o''
Keeps-trans o o' o'' h h' = record {
  state = h'.state ∙ h.state;
  expected = h'.expected ∙ h.expected;
  connection = h'.connection ∙ h.connection;
}

pub flush_sector-Keeps :
    {S : Type 0} (flash : Flash S) (b : Board) (o : Ota) (s : S)
    → Keeps o (flush_sector flash b o s).1
unfolding flush_sector
flush_sector-Keeps flash b o s = elim (Bool-cases (o.sector_fill == 0)) [
  | inl none_left ↦ rw none_left (Keeps-refl o)
  | inr left ↦ rw left (record { state = refl; expected = refl; connection = refl })
]

module _ {S : Type 0} (flash : Flash S) (good : IsFlash flash) (b : Board) (board : IsBoard b) where
  -- What a loop leads to, from `o` and `s`, when it has taken the bytes up to `bs`.
  pub record Copied (bs : List ℕ) (o : Ota) (s : S) (r : Bool × Ota × S) : Type 0 where
    pub holds : r.0 ≡ true → Holds flash b bs r.1 r.2 × (r.1.sector_fill < 4096)
    pub keeps : Keeps o r.1
    pub below : (x : ℕ) → x < stage_offset b → flash.xip r.2 x ≡ flash.xip s x

  copy_chunk-Holds :
      (n : ℕ) (bs d : List ℕ) (o : Ota) (s : S)
      → Holds flash b bs o s
      → o.sector_fill + n ≤ 4096
      → n ≤ length d
      → length bs + n < 4294967296
      → Holds flash b (bs ++ take n d) (copy_chunk n d o) s
  unfolding copy_chunk
  copy_chunk-Holds n bs d o s h room enough small = record {
    buffered = copy_chunk-Buffered n bs d o h.buffered room enough small;
    staged = λ i lt.
        h.staged i lt
        ∙ sym (get_or-append_left bs (take n d) i 0xff (omega (arith, h.buffered.total, lt)));
  }

  copy_chunk-Keeps : (n : ℕ) (d : List ℕ) (o : Ota) → Keeps o (copy_chunk n d o)
  unfolding copy_chunk
  copy_chunk-Keeps n d o = record { state = refl; expected = refl; connection = refl }

  -- A full buffer that was flushed is empty.
  Staged-Holds :
      (bs : List ℕ) (o : Ota) (s : S)
      → Staged flash b bs o s
      → length bs % 4096 ≡ 0
      → Holds flash b bs o s
  Staged-Holds bs o s h whole = record {
    buffered = record {
      buffer = h.buffer;
      filled = omega (arith, h.empty);
      total = omega (arith, h.empty, h.enough, h.tight, whole);
      counted = h.counted;
      part =
          ap (λ f. take f o.sector_buf) h.empty
          ∙ sym (drop-all (o.sector_index * 4096) bs h.enough);
    };
    staged = h.staged;
  }

  -- The flush inside the loop.
  -- After a step that copied, a loop that copies has copied all.
  Copied-trans :
      (bs : List ℕ) (o : Ota) (s : S) (first rest : Bool × Ota × S)
      → first.0 ≡ true
      → Keeps o first.1
      → ((x : ℕ) → x < stage_offset b → flash.xip first.2 x ≡ flash.xip s x)
      → Copied bs first.1 first.2 rest
      → Copied bs o s rest
  Copied-trans bs o s first rest ok keeps below h = record {
    holds = h.holds;
    keeps = Keeps-trans o first.1 rest.1 keeps h.keeps;
    below = λ x lt. h.below x lt ∙ below x lt;
  }

  -- A step that failed ends the loop.
  Copied-failed :
      (bs : List ℕ) (o : Ota) (s : S) (first : Bool × Ota × S)
      → Keeps o first.1
      → ((x : ℕ) → x < stage_offset b → flash.xip first.2 x ≡ flash.xip s x)
      → Copied bs o s (false, first.1, first.2)
  Copied-failed bs o s first keeps below = record {
    holds = λ e. absurd (ground arith);
    keeps = keeps;
    below = below;
  }

  Copied-nothing :
      (bs : List ℕ) (o : Ota) (s : S)
      → Holds flash b bs o s
      → o.sector_fill < 4096
      → Copied (bs ++ []) o s (true, o, s)
  Copied-nothing bs o s h room = record {
    holds = λ _. (subst (λ l. Holds flash b l o s) (sym (append_nil bs)) h, room);
    keeps = Keeps-refl o;
    below = λ x lt. refl;
  }

  flush_if_full-Copied :
      (bs : List ℕ) (o : Ota) (s : S)
      → Holds flash b bs o s
      → length bs ≤ stage_offset b
      → Copied bs o s (flush_if_full flash b o s)
  unfolding flush_if_full
  flush_if_full-Copied bs o s h fit = elim (Bool-cases (o.sector_fill == 4096)) [
    | inl full ↦ rw full (record {
      holds = λ ok.
          let flushed = flush_sector-Staged flash good b board bs o s h fit ok in
          (
            Staged-Holds bs (flush_sector flash b o s).1 (flush_sector flash b o s).2 flushed
                (omega (arith, h.buffered.total, ==→eq _ _ full)),
            omega (arith, flushed.empty),
          );
      keeps = flush_sector-Keeps flash b o s;
      below = flush_sector-Below flash good b board bs o s h fit;
    })
    | inr room ↦ rw room (record {
      holds = λ _. (h, ground (arith, room, h.buffered.filled));
      keeps = Keeps-refl o;
      below = λ x lt. refl;
    })
  ]

  copy_buffer-Copied :
      (passes : ℕ) (bs d : List ℕ) (o : Ota) (s : S)
      → Holds flash b bs o s
      → o.sector_fill < 4096
      → length d ≤ passes
      → length bs + length d ≤ stage_offset b
      → Copied (bs ++ d) o s (copy_buffer flash b passes d o s)
  unfolding copy_buffer
  copy_buffer-Copied zero bs [] o s h room le fit = Copied-nothing bs o s h room
  copy_buffer-Copied zero bs (byte ∷ d) o s h room le fit = absurd (omega arith)
  copy_buffer-Copied (suc passes) bs [] o s h room le fit = Copied-nothing bs o s h room
  copy_buffer-Copied (suc passes) bs (byte ∷ d) o s h room le fit =
      let ds : List ℕ = byte ∷ d in
      let n = chunk_size o (length ds) in
      let bs' = bs ++ take n ds in
      let n_pos : 0 < n = ground (arith, room) in
      let n_le : n ≤ length ds = ground (arith, room) in
      let n_fits : o.sector_fill + n ≤ 4096 = ground (arith, room) in
      let longer : length bs' ≡ length bs + n =
        omega (arith, length-append bs (take n ds), length-take n ds, n_le) in
      let shorter = length-drop n ds in
      let chunk =
        copy_chunk-Holds n bs ds o s h n_fits n_le (omega (arith, fit, n_le, board.in_range)) in
      let first = flush_if_full flash b (copy_chunk n ds o) s in
      let flushed =
        flush_if_full-Copied bs' (copy_chunk n ds o) s chunk (omega (arith, fit, n_le, longer)) in
      let keeps =
        Keeps-trans o (copy_chunk n ds o) first.1 (copy_chunk-Keeps n ds o) flushed.keeps in
      let all =
        append_assoc bs (take n ds) (drop n ds) ∙ ap (λ l. bs ++ l) (take-append-drop n ds) in
      elim (Bool-cases first.0) [
        | inl ok ↦
            let next = flushed.holds ok in
            let rest =
              copy_buffer-Copied passes bs' (drop n ds) first.1 first.2 next.0 next.1
                (omega (arith, le, n_pos, shorter)) (omega (arith, fit, n_le, longer, shorter)) in
            rw ok (
              subst (λ l. Copied l o s (copy_buffer flash b passes (drop n ds) first.1 first.2)) all
                (Copied-trans (bs' ++ drop n ds) o s first _ ok keeps flushed.below rest))
        | inr failed ↦ rw failed (Copied-failed (bs ++ ds) o s first keeps flushed.below)
      ]

  pub copy_chain-Copied :
      (ds : List (List ℕ)) (bs : List ℕ) (o : Ota) (s : S)
      → Holds flash b bs o s
      → o.sector_fill < 4096
      → length bs + length (concat ds) ≤ stage_offset b
      → Copied (bs ++ concat ds) o s (copy_chain flash b ds o s)
  unfolding copy_chain
  copy_chain-Copied [] bs o s h room fit = Copied-nothing bs o s h room
  copy_chain-Copied (d ∷ ds) bs o s h room fit =
      let longer = length-append d (concat ds) in
      let first = copy_buffer flash b (length d) d o s in
      let copied =
        copy_buffer-Copied (length d) bs d o s h room (omega arith) (omega (arith, fit, longer)) in
      elim (Bool-cases first.0) [
        | inl ok ↦
            let next = copied.holds ok in
            let rest =
              copy_chain-Copied ds (bs ++ d) first.1 first.2 next.0 next.1
                (omega (arith, fit, longer, length-append bs d)) in
            rw ok (
              subst (λ l. Copied l o s (copy_chain flash b ds first.1 first.2))
                (append_assoc bs d (concat ds))
                (Copied-trans ((bs ++ d) ++ concat ds) o s first _ ok copied.keeps copied.below
                  rest))
        | inr failed ↦
            rw failed (Copied-failed (bs ++ (d ++ concat ds)) o s first copied.keeps copied.below)
      ]
