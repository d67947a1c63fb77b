-- ===== src/Ota/Upload.antt =====
-- A whole upload, as the server makes it: the first hook, the data in any number of buffers, the last hook.
use mathlib.Core.Path.{subst}
use Prim.Native.Nat.{◌+◌, ◌-◌, ◌%◌}
use open_trickler_rp2040_con.Prelude.{
  ℕ, ◌≤◌, ◌<◌, ◌≡◌, refl, sym, ap, ◌∙◌, ◌⊎◌, inl, inr, true, false, not, ◌&&◌, ◌||◌, ◌==◌, ltb,
  Bool-cases, some, List, [], ◌∷◌, ◌++◌, length, append_nil, append_assoc, length-append, eq→==,
  arith,
}
use open_trickler_rp2040_con.Prelude.Int.{pos}
use open_trickler_rp2040_con.Ota.{
  Flash, Board, Ota, err_ok, err_val, Pbuf, receiving, received, error, ota_upload, stage_offset,
  bad_size, is_applying, is_receiving, same_connection, httpd_post_begin, httpd_post_receive_data,
  httpd_post_finished, flush_sector, copy_chain,
}
use open_trickler_rp2040_con.Ota.Memory.{IsFlash, IsBoard}
use open_trickler_rp2040_con.Ota.Sector.{Holds, Staged, flush_sector-Staged, flush_sector-Below}
use open_trickler_rp2040_con.Ota.Staging.{concat, copy_chain-Copied, flush_sector-Keeps}

-- All the bytes, and what lwIP promises of a chain's length.
abbrev pub bytes_of : List Pbuf → List ℕ
bytes_of [] = []
bytes_of (p ∷ ps) = concat p.chain ++ bytes_of ps

abbrev pub Chained : List Pbuf → Type 0
Chained [] = Unit
Chained (p ∷ ps) = (p.tot_len ≡ length (concat p.chain)) × Chained ps

module _ {S : Type 0} (flash : Flash S) (b : Board) where
  unfoldable pub receive_all : ℕ → List Pbuf → Ota → S → Ota × S
  unfolding httpd_post_receive_data
  receive_all connection [] o s = (o, s)
  receive_all connection (p ∷ ps) o s =
      let (_, o', s') = httpd_post_receive_data flash b connection p o s in
      receive_all connection ps o' s'

  unfoldable pub upload : ℕ → ℕ → List Pbuf → Ota → S → Ota × S
  unfolding httpd_post_begin receive_all httpd_post_finished
  upload connection content_len ps o s =
      let o1 = (httpd_post_begin b connection ota_upload (pos content_len) o).1 in
      let (o2, s2) = receive_all connection ps o1 s in httpd_post_finished flash b connection o2 s2

  -- In the middle of an upload of n bytes, of which `bs` have arrived.
  record Going (c n : ℕ) (bs : List ℕ) (o : Ota) (s : S) : Type 0 where
    holds : Holds flash b bs o s
    room : o.sector_fill < 4096
    state : o.ota_state ≡ receiving
    expected : o.ota_expected ≡ n
    connection : o.ota_connection ≡ some c
    within : length bs ≤ n
    fits : n ≤ stage_offset b

  abbrev Below : S → S → Type 0
  Below s s' = (x : ℕ) → x < stage_offset b → flash.xip s' x ≡ flash.xip s x

  begin-Going :
      (c n : ℕ) (o : Ota) (s : S)
      → IsBoard b
      → length o.sector_buf ≡ 4096
      → (httpd_post_begin b c ota_upload (pos n) o).0 ≡ err_ok
      → Going c n [] (httpd_post_begin b c ota_upload (pos n) o).1 s
  unfolding httpd_post_begin
  begin-Going c n o s board len =
      elim (Bool-cases (is_applying o.ota_state || is_receiving o.ota_state)) [
        | inl busy ↦ rw busy (λ e. absurd (ground arith))
        | inr free ↦ elim (Bool-cases (bad_size b (pos n))) [
          | inl bad ↦ rw (free, bad) (λ e. absurd (ground arith))
          | inr good ↦
              let small : n ≤ stage_offset b = ground (arith, good) in
              let uint32 : n % 4294967296 ≡ n = omega (arith, small, board.in_range) in
              rw (free, good)
                (λ _. record {
                  holds = record {
                    buffered = record {
                      buffer = len;
                      filled = omega arith;
                      total = refl;
                      counted = refl;
                      part = refl;
                    };
                    staged = λ i lt. absurd (omega arith);
                  };
                  room = omega arith;
                  state = refl;
                  expected = uint32;
                  connection = refl;
                  within = omega arith;
                  fits = small;
                })
        ]
      ]

  receive-failed :
      (c : ℕ) (p : Pbuf) (o : Ota) (s : S)
      → o.ota_state ≡ error
      → httpd_post_receive_data flash b c p o s ≡ (err_val, o, s)
  unfolding httpd_post_receive_data
  receive-failed c p o s e = elim (Bool-cases (same_connection c o.ota_connection)) [
    | inl same ↦ rw (same, e) refl
    | inr other ↦ rw other refl
  ]

module _ {S : Type 0} (flash : Flash S) (good : IsFlash flash) (b : Board) (board : IsBoard b) where
  -- One buffer: the upload goes on with its bytes, or has failed.
  receive-Going :
      (c n : ℕ) (bs : List ℕ) (p : Pbuf) (o : Ota) (s : S)
      → Going flash b c n bs o s
      → p.tot_len ≡ length (concat p.chain)
      → let (_, o', s') = httpd_post_receive_data flash b c p o s in
        ((o'.ota_state ≡ error) ⊎ Going flash b c n (bs ++ concat p.chain) o' s')
        × Below flash b s s'
  unfolding httpd_post_receive_data
  receive-Going c n bs p o s h chained =
      let h' = h.holds.buffered in
      let left : (o.ota_expected + 4294967296 - o.ota_received) % 4294967296 ≡ n - length bs =
        omega (arith, h.expected, h'.counted, h.within, h.fits, board.in_range) in
      let open_to : (not (same_connection c o.ota_connection) || not (is_receiving o.ota_state))
          ≡ false =
        rw (h.connection, h.state, eq→== c c refl) refl in
      elim (Bool-cases
        (ltb ((o.ota_expected + 4294967296 - o.ota_received) % 4294967296) p.tot_len)) [
          | inl exceeds ↦ rw (open_to, exceeds) (inl refl, λ x lt. refl)
          | inr fits ↦
              let more : length bs + length (concat p.chain) ≤ n =
                ground (arith, fits, left, chained, h.within) in
              let copied =
                copy_chain-Copied flash good b board p.chain bs o s h.holds h.room
                  (omega (arith, more, h.fits)) in
              elim (Bool-cases (copy_chain flash b p.chain o s).0) [
                | inl ok ↦
                    let now = copied.holds ok in
                    rw (open_to, fits, ok)
                      (
                        inr (record {
                          holds = now.0;
                          room = now.1;
                          state = copied.keeps.state ∙ h.state;
                          expected = copied.keeps.expected ∙ h.expected;
                          connection = copied.keeps.connection ∙ h.connection;
                          within = omega (arith, more, length-append bs (concat p.chain));
                          fits = h.fits;
                        }),
                        copied.below,
                      )
                | inr failed ↦ rw (open_to, fits, failed) (inl refl, copied.below)
              ]
        ]

  receive-step :
      (c n : ℕ) (bs : List ℕ) (p : Pbuf) (o : Ota) (s : S)
      → p.tot_len ≡ length (concat p.chain)
      → (o.ota_state ≡ error) ⊎ Going flash b c n bs o s
      → let (_, o', s') = httpd_post_receive_data flash b c p o s in
        ((o'.ota_state ≡ error) ⊎ Going flash b c n (bs ++ concat p.chain) o' s')
        × Below flash b s s'
  receive-step c n bs p o s chained (inl e) =
      let same = receive-failed flash b c p o s e in
      (inl (ap (λ r. r.1.ota_state) same ∙ e), λ x lt. ap (λ r. flash.xip r.2 x) same)
  receive-step c n bs p o s chained (inr h) = receive-Going c n bs p o s h chained

  receive_all-Going :
      (c n : ℕ) (ps : List Pbuf) (bs : List ℕ) (o : Ota) (s : S)
      → Chained ps
      → (o.ota_state ≡ error) ⊎ Going flash b c n bs o s
      → let (o', s') = receive_all flash b c ps o s in
        ((o'.ota_state ≡ error) ⊎ Going flash b c n (bs ++ bytes_of ps) o' s') × Below flash b s s'
  unfolding receive_all
  receive_all-Going c n [] bs o s chained h = (
    subst (λ l. (o.ota_state ≡ error) ⊎ Going flash b c n l o s) (sym (append_nil bs)) h,
    λ x lt. refl,
  )
  receive_all-Going c n (p ∷ ps) bs o s chained h =
      let first = receive-step c n bs p o s chained.0 h in
      let r = httpd_post_receive_data flash b c p o s in
      let rest = receive_all-Going c n ps (bs ++ concat p.chain) r.1 r.2 chained.1 first.0 in
      let all = append_assoc bs (concat p.chain) (bytes_of ps) in
      (
        subst
            (λ l.
              let (o', s') = receive_all flash b c ps r.1 r.2 in
              (o'.ota_state ≡ error) ⊎ Going flash b c n l o' s')
            all rest.0,
        λ x lt. rest.1 x lt ∙ first.1 x lt,
      )

  -- What the last hook leaves.
  abbrev Ended : ℕ → List ℕ → Ota → S → Type 0
  Ended n bs o s =
      (o.ota_state ≡ error) ⊎ ((o.ota_state ≡ received) × (length bs ≡ n) × Staged flash b bs o s)

  finished-failed :
      (c n : ℕ) (bs : List ℕ) (o : Ota) (s : S)
      → o.ota_state ≡ error
      → let (o', s') = httpd_post_finished flash b c o s in Ended n bs o' s' × Below flash b s s'
  unfolding httpd_post_finished
  finished-failed c n bs o s e =
      let shut : is_receiving o.ota_state ≡ false = rw e refl in
      elim (Bool-cases (same_connection c o.ota_connection)) [
        | inl same ↦ rw (same, shut) (inl e, λ x lt. refl)
        | inr other ↦ rw other (inl e, λ x lt. refl)
      ]

  finished-Going :
      (c n : ℕ) (bs : List ℕ) (o : Ota) (s : S)
      → Going flash b c n bs o s
      → let (o', s') = httpd_post_finished flash b c o s in Ended n bs o' s' × Below flash b s s'
  unfolding httpd_post_finished
  finished-Going c n bs o s h =
      let same : same_connection c o.ota_connection ≡ true = rw h.connection (eq→== c c refl) in
      let open_to : is_receiving o.ota_state ≡ true = rw h.state refl in
      let fit : length bs ≤ stage_offset b = omega (arith, h.within, h.fits) in
      let below = flush_sector-Below flash good b board bs o s h.holds fit in
      let keeps = flush_sector-Keeps flash b o s in
      let flushed = flush_sector flash b o s in
      elim (Bool-cases (flushed.0 && (flushed.1.ota_received == flushed.1.ota_expected))) [
        | inl whole ↦
            let st =
              flush_sector-Staged flash good b board bs o s h.holds fit (ground (arith, whole)) in
            let all : flushed.1.ota_received ≡ flushed.1.ota_expected = ground (arith, whole) in
            rw (same, open_to, whole)
              (
                inr (
                  refl,
                  sym st.counted ∙ all ∙ keeps.expected ∙ h.expected,
                  record {
                    empty = st.empty;
                    buffer = st.buffer;
                    counted = st.counted;
                    fits = st.fits;
                    enough = st.enough;
                    tight = st.tight;
                    staged = st.staged;
                  },
                ),
                below,
              )
        | inr short ↦ rw (same, open_to, short) (inl refl, below)
      ]

  finished-Ended :
      (c n : ℕ) (bs : List ℕ) (o : Ota) (s : S)
      → (o.ota_state ≡ error) ⊎ Going flash b c n bs o s
      → let (o', s') = httpd_post_finished flash b c o s in Ended n bs o' s' × Below flash b s s'
  finished-Ended c n bs o s (inl e) = finished-failed c n bs o s e
  finished-Ended c n bs o s (inr h) = finished-Going c n bs o s h

  -- Whatever buffers follow an upload's accepted beginning, and whatever the flash answers, no byte of the
  -- running image changes, and the upload ends as an error or as received. Where it is received, as many
  -- bytes came as were announced, and the staging area holds them in order from its start, the last sector
  -- filled up with 0xff. The static sector buffer has its size, and a chain's length is that of its
  -- buffers.
  pub upload-Staged :
      (c n : ℕ) (ps : List Pbuf) (o : Ota) (s : S)
      → length o.sector_buf ≡ 4096
      → (httpd_post_begin b c ota_upload (pos n) o).0 ≡ err_ok
      → Chained ps
      → let (o', s') = upload flash b c n ps o s in
        ((x : ℕ) → x < stage_offset b → flash.xip s' x ≡ flash.xip s x)
        × ((o'.ota_state ≡ error)
            ⊎ ((o'.ota_state ≡ received)
                × (length (bytes_of ps) ≡ n)
                × Staged flash b (bytes_of ps) o' s'))
  unfolding upload
  upload-Staged c n ps o s len ok chained =
      let o1 = (httpd_post_begin b c ota_upload (pos n) o).1 in
      let r = receive_all flash b c ps o1 s in
      let all =
        receive_all-Going c n ps [] o1 s chained (inr (begin-Going flash b c n o s board len ok)) in
      let last = finished-Ended c n (bytes_of ps) r.0 r.1 all.0 in
      (λ x lt. last.1 x lt ∙ all.1 x lt, last.0)
