-- ===== src/Ota/Verified.antt =====
-- The update's hooks and requests in any order: what is ever applied was verified.
use mathlib.Core.Path.{subst}
use open_trickler_rp2040_con.Prelude.{
  sym, ◌⊎◌, ==→eq, ℕ, zero, suc, ◌≡◌, refl, ◌∙◌, inl, inr, Bool, true, false, not, ◌&&◌, ◌||◌, ◌==◌,
  Bool-cases, if-holds, if-cases, Option, none, some, List, [], ◌∷◌, length, drop, arith,
}
use open_trickler_rp2040_con.Prelude.Int.{ℤ}
use open_trickler_rp2040_con.Ota.{
  Flash, Board, Ota, Err, err_val, upload_exceeds, Pbuf, Uri, OtaState, idle, receiving, received,
  verified, applying, error, stage_offset, is_applying, is_receiving, ota_init, same_connection,
  httpd_post_begin, httpd_post_receive_data, httpd_post_finished, flush_sector, flush_if_full,
  chunk_size, copy_chunk, copy_buffer, copy_chain,
}
use open_trickler_rp2040_con.Ota.Image.{
  Param, Action, reset, verify, apply, other_action, crc32_flash, staged_image_plausible,
  verify_image, is_received, is_verified, act, read_params, no_request, http_rest_ota_state,
}
use open_trickler_rp2040_con.Ota.Staging.{flush_sector-Keeps}

-- What reaches the update: the server's three hooks, and a request with what xTaskCreate would answer.
pub data Event : Type 0 where
  begin : ℕ → Uri → ℤ → Event
  receive : ℕ → Pbuf → Event
  finish : ℕ → Event
  request : Bool → List Param → Event

module _ {S : Type 0} (flash : Flash S) (b : Board) (strtoul : List ℕ → ℕ) where
  unfoldable pub step : Event → Ota → S → Ota × S
  unfolding httpd_post_begin httpd_post_receive_data httpd_post_finished http_rest_ota_state
  step (begin c uri len) o s = ((httpd_post_begin b c uri len o).1, s)
  step (receive c p) o s = let (_, o', s') = httpd_post_receive_data flash b c p o s in (o', s')
  step (finish c) o s = httpd_post_finished flash b c o s
  step (request created ps) o s = ((http_rest_ota_state flash b strtoul created ps o s).1, s)

  unfoldable pub run : List Event → Ota → S → Ota × S
  unfolding step
  run [] o s = (o, s)
  run (e ∷ es) o s = let (o', s') = step e o s in run es o' s'

abbrev pub trusted : OtaState → Bool
trusted idle = false
trusted receiving = false
trusted received = false
trusted verified = true
trusted applying = true
trusted error = false

-- A request asks for the verification of an image with the checksum `c`.
unfoldable pub Sends : (List ℕ → ℕ) → Event → ℕ → Type 0
Sends strtoul (begin connection uri len) c = ⊥
Sends strtoul (receive connection p) c = ⊥
Sends strtoul (finish connection) c = ⊥
Sends strtoul (request created ps) c =
    let r = read_params strtoul ps no_request in
    (r.action ≡ some verify) × (r.have_crc ≡ true) × (r.client_crc ≡ c)

unfoldable pub Sent : (List ℕ → ℕ) → List Event → ℕ → Type 0
Sent strtoul [] c = ⊥
Sent strtoul (e ∷ es) c = Sends strtoul e c ⊎ Sent strtoul es c

module _ {S : Type 0} (flash : Flash S) (b : Board) where
  -- The image that a verified state stands for: its checksum is one of those in `P`, and it is that of what
  -- the flash holds now.
  abbrev pub Image : (ℕ → Type 0) → Ota → S → Type 0
  Image P o s =
      P o.ota_crc
      × (crc32_flash flash (stage_offset b) o.ota_received s ≡ o.ota_crc)
      × (staged_image_plausible flash b o.ota_received s ≡ true)

  abbrev Verified : (ℕ → Type 0) → Ota → S → Type 0
  Verified P o s = trusted o.ota_state ≡ true → Image P o s

  flush_if_full-state : (o : Ota) (s : S) → (flush_if_full flash b o s).1.ota_state ≡ o.ota_state
  unfolding flush_if_full
  flush_if_full-state o s =
      if-holds (λ (r : Bool × Ota × S). r.1.ota_state ≡ o.ota_state) (o.sector_fill == 4096)
        (flush_sector-Keeps flash b o s).state refl

  copy_buffer-state :
      (passes : ℕ) (d : List ℕ) (o : Ota) (s : S)
      → (copy_buffer flash b passes d o s).1.ota_state ≡ o.ota_state
  unfolding copy_buffer copy_chunk
  copy_buffer-state zero d o s = refl
  copy_buffer-state (suc passes) [] o s = refl
  copy_buffer-state (suc passes) (byte ∷ d) o s =
      let n = chunk_size o (length (byte ∷ d)) in
      let o' = copy_chunk n (byte ∷ d) o in
      let first = flush_if_full flash b o' s in
      let same = flush_if_full-state o' s in
      if-holds (λ (r : Bool × Ota × S). r.1.ota_state ≡ o.ota_state) first.0
        (copy_buffer-state passes (drop n (byte ∷ d)) first.1 first.2 ∙ same) same

  copy_chain-state :
      (ds : List (List ℕ)) (o : Ota) (s : S) → (copy_chain flash b ds o s).1.ota_state ≡ o.ota_state
  unfolding copy_chain
  copy_chain-state [] o s = refl
  copy_chain-state (d ∷ ds) o s =
      let first = copy_buffer flash b (length d) d o s in
      let same = copy_buffer-state (length d) d o s in
      if-holds (λ (r : Bool × Ota × S). r.1.ota_state ≡ o.ota_state) first.0
        (copy_chain-state ds first.1 first.2 ∙ same) same

  begin-Verified :
      (P : ℕ → Type 0) (c : ℕ) (uri : Uri) (len : ℤ) (o : Ota) (s : S)
      → Verified P o s
      → Verified P (httpd_post_begin b c uri len o).1 s
  unfolding httpd_post_begin
  begin-Verified P c uri len o s v = ground (arith, v)

  verify_image-Verified :
      (P : ℕ → Type 0) (check : ℕ) (o : Ota) (s : S)
      → P check
      → Verified P (verify_image flash b check o s) s
  unfolding verify_image
  verify_image-Verified P check o s sent =
      let found = crc32_flash flash (stage_offset b) o.ota_received s in
      if-cases (λ o'. Verified P o' s) (not (found == check)) (λ _ t. absurd (ground (arith, t)))
        (λ same.
          if-cases (λ o'. Verified P o' s) (not (staged_image_plausible flash b o.ota_received s))
            (λ _ t. absurd (ground (arith, t)))
            (λ plausible _. (
              subst P (sym (==→eq found check (ground (arith, same)))) sent,
              refl,
              ground (arith, plausible),
            )))

  act-Verified :
      (P : ℕ → Type 0) (created : Bool) (check : ℕ) (have_crc : Bool) (a : Option Action) (o : Ota)
      (s : S)
      → (a ≡ some verify → have_crc ≡ true → P check)
      → Verified P o s
      → Verified P (act flash b created check have_crc a o s).1 s
  unfolding act
  act-Verified P created check have_crc none o s sent v = v
  act-Verified P created check have_crc (some reset) o s sent v =
      if-holds (λ o'. Verified P o' s)
        (not (is_applying o.ota_state) && not (is_receiving o.ota_state))
        (λ t. absurd (ground (arith, t))) v
  act-Verified P created check have_crc (some verify) o s sent v =
      if-cases (λ o'. Verified P o' s) (is_received o.ota_state && have_crc)
        (λ e. verify_image-Verified P check o s (sent refl (ground (arith, e)))) (λ _. v)
  act-Verified P created check have_crc (some apply) o s sent v =
      if-cases (λ (r : Bool × Ota). Verified P r.1 s) (is_verified o.ota_state)
        (λ e.
          if-holds (λ o'. Verified P o' s) created (λ _. v (ground (arith, e)))
            (λ t. absurd (ground (arith, t))))
        (λ _. v)
  act-Verified P created check have_crc (some other_action) o s sent v = v

  receive-Verified :
      (P : ℕ → Type 0) (c : ℕ) (p : Pbuf) (o : Ota) (s : S)
      → Verified P o s
      → let (_, o', s') = httpd_post_receive_data flash b c p o s in Verified P o' s'
  unfolding httpd_post_receive_data
  receive-Verified P c p o s v =
      let copied = copy_chain flash b p.chain o s in
      if-cases (λ (r : Err × Ota × S). Verified P r.1 r.2)
        (not (same_connection c o.ota_connection) || not (is_receiving o.ota_state)) (λ _. v)
        (λ open_to.
          if-holds (λ (r : Err × Ota × S). Verified P r.1 r.2) _
            {x = (err_val, record o { ota_state = error; ota_message = upload_exceeds }, s)}
            (λ t. absurd (ground (arith, t)))
            (if-holds (λ (r : Err × Ota × S). Verified P r.1 r.2) copied.0
              (λ t. absurd (ground (arith, t, open_to, copy_chain-state p.chain o s)))
              (λ t. absurd (ground (arith, t)))))

  finish-Verified :
      (P : ℕ → Type 0) (c : ℕ) (o : Ota) (s : S)
      → Verified P o s
      → let (o', s') = httpd_post_finished flash b c o s in Verified P o' s'
  unfolding httpd_post_finished
  finish-Verified P c o s v = elim (Bool-cases (same_connection c o.ota_connection)) [
    | inl same ↦ elim (Bool-cases (is_receiving o.ota_state)) [
      | inl going ↦
          let (ok, o', s') = flush_sector flash b o s in
          rw (same, going)
            (if-holds (λ x. Verified P (record x { ota_connection = none }) s')
              (ok && (o'.ota_received == o'.ota_expected)) (λ t. absurd (ground (arith, t)))
              (λ t. absurd (ground (arith, t))))
      | inr idle_now ↦ rw (same, idle_now) v
    ]
    | inr other ↦ rw other v
  ]

module _ {S : Type 0} (flash : Flash S) (b : Board) (strtoul : List ℕ → ℕ) where
  step-Verified :
      (P : ℕ → Type 0) (e : Event) (o : Ota) (s : S)
      → ((c : ℕ) → Sends strtoul e c → P c)
      → Verified flash b P o s
      → let (o', s') = step flash b strtoul e o s in Verified flash b P o' s'
  unfolding step http_rest_ota_state Sends
  step-Verified P (begin c uri len) o s sent v = begin-Verified flash b P c uri len o s v
  step-Verified P (receive c p) o s sent v = receive-Verified flash b P c p o s v
  step-Verified P (finish c) o s sent v = finish-Verified flash b P c o s v
  step-Verified P (request created ps) o s sent v =
      let r = read_params strtoul ps no_request in
      act-Verified flash b P created r.client_crc r.have_crc r.action o s
        (λ asked given. sent r.client_crc (asked, given, refl)) v

  run-keeps :
      (P : ℕ → Type 0) (es : List Event) (o : Ota) (s : S)
      → ((c : ℕ) → Sent strtoul es c → P c)
      → Verified flash b P o s
      → let (o', s') = run flash b strtoul es o s in Verified flash b P o' s'
  unfolding run Sent
  run-keeps P [] o s sent v = v
  run-keeps P (e ∷ es) o s sent v =
      let r = step flash b strtoul e o s in
      run-keeps P es r.0 r.1 (λ c h. sent c (inr h))
        (step-Verified P e o s (λ c h. sent c (inl h)) v)

  -- From the start, however uploads, their buffers and requests follow each other: where the state says
  -- that an image is verified or being applied, one of the requests asked for a verification and sent the
  -- checksum of the bytes that are in the staging area now, and their vector table is plausible.
  pub run-Verified :
      (es : List Event) (o : Ota) (s : S)
      → let (o', s') = run flash b strtoul es (ota_init o) s in
        trusted o'.ota_state ≡ true → Image flash b (Sent strtoul es) o' s'
  run-Verified es o s =
      run-keeps (Sent strtoul es) es (ota_init o) s (λ c h. h) (λ t. absurd (ground (arith, t)))
