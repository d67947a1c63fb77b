-- ===== src/Ota/Sector.antt =====
-- The sector buffer and the sectors that are staged, against the bytes that have arrived.
use Prim.Native.Nat.{◌+◌, ◌-◌, ◌*◌, ◌%◌}
use open_trickler_rp2040_con.Prelude.{
  ℕ, suc, ◌≤◌, ◌<◌, ◌≡◌, refl, sym, ap, ◌∙◌, inl, inr, true, ◌&&◌, ◌==◌, ltb, leb, Bool-cases,
  if-cases, List, ◌++◌, length, get_or, take, drop, replicate, inc32, length-append, length-take,
  length-drop, length-replicate, get_or-drop, get_or-take, get_or-append_left, get_or-append_right,
  get_or-past, get_or-replicate, get_or-default, take-all, take-append_left, drop-append_left,
  ==→eq, ltb→lt, arith,
}
use open_trickler_rp2040_con.Ota.{
  Flash, Board, Ota, stage_offset, flash_write_sector, padded, flush_sector, copy_chunk,
}
use open_trickler_rp2040_con.Ota.Memory.{IsFlash, IsBoard, flash_write_sector_lem}

-- The buffer against the bytes `bs` so far: what is not yet in a sector is in the buffer.
pub record Buffered (bs : List ℕ) (o : Ota) : Type 0 where
  pub buffer : length o.sector_buf ≡ 4096
  pub filled : o.sector_fill ≤ 4096
  pub total : o.sector_index * 4096 + o.sector_fill ≡ length bs
  pub counted : o.ota_received ≡ length bs
  pub part : take o.sector_fill o.sector_buf ≡ drop (o.sector_index * 4096) bs

length-padded : (bs : List ℕ) (o : Ota) → Buffered bs o → length (padded o) ≡ 4096
unfolding padded
length-padded bs o h = ground (
  arith,
  h.buffer,
  h.filled,
  length-append (take o.sector_fill o.sector_buf) (replicate {A = ℕ} (4096 - o.sector_fill) 0xff),
  length-take o.sector_fill o.sector_buf,
  length-replicate {A = ℕ} (4096 - o.sector_fill) 0xff,
)

get_or-part :
    (bs : List ℕ) (o : Ota) (j : ℕ)
    → Buffered bs o
    → j < o.sector_fill
    → get_or (take o.sector_fill o.sector_buf) j 0 ≡ get_or bs (o.sector_index * 4096 + j) 0xff
get_or-part bs o j h lt =
    ap (λ l. get_or l j 0) h.part
    ∙ get_or-drop bs (o.sector_index * 4096) j 0
    ∙ get_or-default bs (o.sector_index * 4096 + j) 0 0xff (omega (arith, h.total, lt))

get_or-filler :
    (bs : List ℕ) (o : Ota) (j : ℕ)
    → Buffered bs o
    → o.sector_fill ≤ j
    → j < 4096
    → get_or (take o.sector_fill o.sector_buf ++ replicate (4096 - o.sector_fill) 0xff) j 0 ≡ 0xff
get_or-filler bs o j h le lt =
    let xs = take o.sector_fill o.sector_buf in
    let ys : List ℕ = replicate (4096 - o.sector_fill) 0xff in
    let at : j ≡ length xs + (j - o.sector_fill) =
      omega (arith, length-take o.sector_fill o.sector_buf, h.buffer, h.filled, le) in
    let inside : j - o.sector_fill < length ys =
      omega (arith, length-replicate {A = ℕ} (4096 - o.sector_fill) 0xff, lt, le) in
    ap (λ i. get_or (xs ++ ys) i 0) at
    ∙ get_or-append_right xs ys (j - o.sector_fill) 0
    ∙ get_or-default ys (j - o.sector_fill) 0 0xff inside
    ∙ get_or-replicate (4096 - o.sector_fill) 0xff (j - o.sector_fill)

-- What is written to a sector: the bytes that have arrived for it, and 0xff where there are no more.
get_or-padded :
    (bs : List ℕ) (o : Ota) (j : ℕ)
    → Buffered bs o
    → j < 4096
    → get_or (padded o) j 0 ≡ get_or bs (o.sector_index * 4096 + j) 0xff
unfolding padded
get_or-padded bs o j h lt =
    let xs = take o.sector_fill o.sector_buf in
    let ys : List ℕ = replicate (4096 - o.sector_fill) 0xff in
    elim (Bool-cases (ltb j o.sector_fill)) [
      | inl early ↦
          let arrived = get_or-part bs o j h (ltb→lt j _ early) in
          let inside = length-take o.sector_fill o.sector_buf in
          if-cases (λ l. get_or l j 0 ≡ get_or bs (o.sector_index * 4096 + j) 0xff)
            (ltb o.sector_fill 4096)
            (λ _.
              get_or-append_left xs ys j 0
                (omega (arith, ltb→lt j _ early, inside, h.buffer, h.filled))
              ∙ arrived)
            (λ _. sym (get_or-take o.sector_buf o.sector_fill j 0 (ltb→lt j _ early)) ∙ arrived)
      | inr late ↦
          let room : ltb o.sector_fill 4096 ≡ true = ground (arith, late, lt) in
          rw room (
            get_or-filler bs o j h (ground (arith, late)) lt
            ∙ sym (get_or-past bs _ 0xff (ground (arith, late, h.total))))
    ]

-- Where the chunk fits, the buffer's filled part grows by it.
take-memcpy :
    (n f : ℕ) (d buf : List ℕ)
    → f + n ≤ length buf
    → n ≤ length d
    → take (f + n) (take f buf ++ take n d ++ drop (f + n) buf) ≡ take f buf ++ take n d
take-memcpy n f d buf fit enough =
    let xs = take f buf ++ take n d in
    let len : length xs ≡ f + n =
      omega (arith, length-append (take f buf) (take n d), length-take f buf, length-take n d) in
    take-append_left (f + n) xs (drop (f + n) buf) (omega (arith, len))
    ∙ take-all (f + n) xs (omega (arith, len))

pub copy_chunk-Buffered :
    (n : ℕ) (bs d : List ℕ) (o : Ota)
    → Buffered bs o
    → o.sector_fill + n ≤ 4096
    → n ≤ length d
    → length bs + n < 4294967296
    → Buffered (bs ++ take n d) (copy_chunk n d o)
unfolding copy_chunk
copy_chunk-Buffered n bs d o h room enough small =
    let f = o.sector_fill in
    let grown : (f + n) % 4294967296 ≡ f + n = omega arith in
    let counter : (o.ota_received + n) % 4294967296 ≡ o.ota_received + n =
      omega (arith, h.counted) in
    let chunk : length (take n d) ≡ n = omega (arith, length-take n d) in
    let longer : length (bs ++ take n d) ≡ length bs + n =
      omega (arith, length-append bs (take n d), chunk) in
    let rest = drop (f + n) o.sector_buf in
    rw (grown, counter)
      (record {
        buffer = omega (
          arith,
          h.buffer,
          length-append (take f o.sector_buf ++ take n d) rest,
          length-append (take f o.sector_buf) (take n d),
          chunk,
          length-take f o.sector_buf,
          length-drop (f + n) o.sector_buf,
        );
        filled = room;
        total = omega (arith, longer, h.total);
        counted = omega (arith, longer, h.counted);
        part =
            take-memcpy n f d o.sector_buf (omega (arith, h.buffer)) enough
            ∙ ap (λ l. l ++ take n d) h.part
            ∙ sym (drop-append_left (o.sector_index * 4096) bs (take n d) (omega (arith, h.total)));
      })

module _ {S : Type 0} (flash : Flash S) (b : Board) where
  -- What has arrived is in the staged sectors and the buffer.
  pub record Holds (bs : List ℕ) (o : Ota) (s : S) : Type 0 where
    pub buffered : Buffered bs o
    pub staged :
        (i : ℕ) → i < o.sector_index * 4096 → flash.xip s (stage_offset b + i) ≡ get_or bs i 0xff

  -- Every byte is in a staged sector, and the last of them is filled up.
  pub record Staged (bs : List ℕ) (o : Ota) (s : S) : Type 0 where
    pub empty : o.sector_fill ≡ 0
    pub buffer : length o.sector_buf ≡ 4096
    pub counted : o.ota_received ≡ length bs
    pub fits : length bs ≤ stage_offset b
    pub enough : length bs ≤ o.sector_index * 4096
    pub tight : o.sector_index * 4096 < length bs + 4096
    pub staged :
        (i : ℕ) → i < o.sector_index * 4096 → flash.xip s (stage_offset b + i) ≡ get_or bs i 0xff

module _ {S : Type 0} (flash : Flash S) (good : IsFlash flash) (b : Board) (board : IsBoard b) where
  -- A sector that is staged lies above the running image.
  flash_write_sector-Below :
      (k : ℕ) (ds : List ℕ) (s : S) (x : ℕ)
      → length ds ≡ 4096
      → x < stage_offset b
      → let (ok, s') = flash_write_sector flash (stage_offset b + k * 4096) ds s in
        flash.xip s' x ≡ flash.xip s x
  flash_write_sector-Below k ds s x len lt =
      let w =
        flash_write_sector_lem flash good (stage_offset b + k * 4096) ds s x
          (omega (arith, board.aligned)) len in
      elim w.1 [ inl e ↦ ground (arith, e, lt) | inr e ↦ e ]

  -- The sector that a flush writes.
  flash_write_sector-Holds :
      (bs : List ℕ) (o : Ota) (s : S)
      → Holds flash b bs o s
      → 0 < o.sector_fill
      → length bs ≤ stage_offset b
      → let offset = stage_offset b + o.sector_index * 4096 in
        let (ok, s') = flash_write_sector flash offset (padded o) s in
        ok ≡ true
        → (i : ℕ) → i < suc o.sector_index * 4096
        → flash.xip s' (stage_offset b + i) ≡ get_or bs i 0xff
  flash_write_sector-Holds bs o s h some_bytes fit ok i lt =
      let k = o.sector_index * 4096 in
      let len = length-padded bs o h.buffered in
      let w =
        (flash_write_sector_lem flash good (stage_offset b + k) (padded o) s (stage_offset b + i)
            (omega (arith, board.aligned)) len).0
          ok in
      elim (Bool-cases (ltb i k)) [
        | inl before ↦ ground (arith, w, h.staged i (ltb→lt i k before), before)
        | inr after ↦
            let inside : stage_offset b + i - (stage_offset b + k) ≡ i - k = omega arith in
            let back : k + (i - k) ≡ i = ground (arith, after) in
            let byte = get_or-padded bs o (i - k) h.buffered (ground (arith, after, lt)) in
            let hit : (leb (stage_offset b + k) (stage_offset b + i)
                  && ltb (stage_offset b + i) (stage_offset b + k + length (padded o)))
                ≡ true =
              ground (arith, after, lt, len) in
            w ∙ rw (hit, inside) (byte ∙ ap (λ x. get_or bs x 0xff) back)
      ]

  pub flush_sector-Staged :
      (bs : List ℕ) (o : Ota) (s : S)
      → Holds flash b bs o s
      → length bs ≤ stage_offset b
      → let (ok, o', s') = flush_sector flash b o s in ok ≡ true → Staged flash b bs o' s'
  unfolding flush_sector
  flush_sector-Staged bs o s h fit = elim (Bool-cases (o.sector_fill == 0)) [
    | inl none_left ↦
        let no_bytes = ==→eq _ _ none_left in
        rw none_left (λ _. record {
          empty = no_bytes;
          buffer = h.buffered.buffer;
          counted = h.buffered.counted;
          fits = fit;
          enough = omega (arith, no_bytes, h.buffered.total);
          tight = omega (arith, no_bytes, h.buffered.total);
          staged = h.staged;
        })
    | inr left ↦
        let some_bytes : 0 < o.sector_fill = ground (arith, left) in
        let next : inc32 o.sector_index ≡ suc o.sector_index =
          omega (arith, h.buffered.total, board.in_range, fit) in
        let place : (stage_offset b + o.sector_index * 4096) % 4294967296
            ≡ stage_offset b + o.sector_index * 4096 =
          omega (arith, h.buffered.total, board.in_range, fit, some_bytes) in
        rw (left, next, place)
          (λ ok. record {
            empty = refl;
            buffer = length-padded bs o h.buffered;
            counted = h.buffered.counted;
            fits = fit;
            enough = omega (arith, h.buffered.filled, h.buffered.total);
            tight = omega (arith, some_bytes, h.buffered.total);
            staged = flash_write_sector-Holds bs o s h some_bytes fit ok;
          })
  ]

  -- Whatever the flash answers, a flush changes no byte of the running image.
  pub flush_sector-Below :
      (bs : List ℕ) (o : Ota) (s : S)
      → Holds flash b bs o s
      → length bs ≤ stage_offset b
      → (x : ℕ) → x < stage_offset b
      → flash.xip (flush_sector flash b o s).2 x ≡ flash.xip s x
  unfolding flush_sector
  flush_sector-Below bs o s h fit x lt = elim (Bool-cases (o.sector_fill == 0)) [
    | inl none_left ↦ rw none_left refl
    | inr left ↦
        let place : (stage_offset b + o.sector_index * 4096) % 4294967296
            ≡ stage_offset b + o.sector_index * 4096 =
          ground (arith, h.buffered.total, board.in_range, fit, left) in
        rw (left, place)
          (flash_write_sector-Below o.sector_index (padded o) s x (length-padded bs o h.buffered)
            lt)
  ]
