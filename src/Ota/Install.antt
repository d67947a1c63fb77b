-- ===== src/Ota/Install.antt =====
-- The copy of the staged image over the running one, and a whole update.
use Prim.Native.Nat.{◌+◌, ◌-◌, ◌*◌, ◌/◌, ◌%◌}
use open_trickler_rp2040_con.Prelude.{
  ℕ, zero, suc, ◌≤◌, ◌<◌, ◌≡◌, refl, ap, ◌∙◌, inl, inr, Bool, true, false, not, ◌&&◌, leb, ltb,
  ◌==◌, eq→==, ◌⊎◌, if◌then◌else◌, Bool-cases, if-holds, if-cases, Option, none, some, List, [],
  ◌∷◌, length, get_or, arith,
}
use open_trickler_rp2040_con.Prelude.Int.{pos}
use open_trickler_rp2040_con.Eeprom.Memory.{window, length-window, get_or-window}
use open_trickler_rp2040_con.Ota.{
  Flash, Board, Ota, Pbuf, Message, OtaState, idle, receiving, received, verified, applying, error,
  verified_text, flashing, ota_upload, err_ok, stage_offset, is_applying, is_receiving,
  httpd_post_begin,
}
use open_trickler_rp2040_con.Ota.Image.{
  Param, a0, crc, Action, reset, verify, apply, other_action, copy_sectors, ota_apply_job,
  whole_sectors, ota_apply_task, verify_image, is_received, is_verified, act, read_params,
  no_request, http_rest_ota_state, crc32_flash, staged_image_plausible,
}
use open_trickler_rp2040_con.Ota.Memory.{IsFlash, IsBoard, rewrite_lem}
use open_trickler_rp2040_con.Ota.Sector.{Staged}
use open_trickler_rp2040_con.Ota.Upload.{bytes_of, Chained, upload, upload-Staged}

in_sector : (off x : ℕ) → (leb off x && ltb x (off + 4096)) ≡ true → (off ≤ x) × (x < off + 4096)
in_sector off x h = ground (arith, h)

module _ {S : Type 0} (flash : Flash S) (good : IsFlash flash) (b : Board) (board : IsBoard b) where
  copy_sector_lem :
      (off : ℕ) (s : S) (x : ℕ)
      → off % 4096 ≡ 0
      → flash.xip
          (flash.flash_range_program off
            (window (flash.xip s) (stage_offset b + off) 4096)
            (flash.flash_range_erase off 4096 s))
          x
        ≡ (if leb off x && ltb x (off + 4096)
            then flash.xip s (stage_offset b + x)
            else flash.xip s x)
  copy_sector_lem off s x al =
      let ds = window (flash.xip s) (stage_offset b + off) 4096 in
      let len = length-window (flash.xip s) (stage_offset b + off) 4096 in
      let w = rewrite_lem flash good off ds s x al len in
      elim (Bool-cases (leb off x && ltb x (off + 4096))) [
        | inl inside ↦
            let (lo, hi) = in_sector off x inside in
            let place : stage_offset b + off + (x - off) ≡ stage_offset b + x = omega (arith, lo) in
            w
            ∙ rw inside (
                get_or-window (flash.xip s) (stage_offset b + off) 4096 (x - off)
                  (omega (arith, lo, hi))
                ∙ ap (flash.xip s) place)
        | inr outside ↦ w ∙ rw outside refl
      ]

  -- The sectors below the staging area become those of the staging area, one by one.
  copy_sectors_lem :
      (n off : ℕ) (s : S) (x : ℕ)
      → off % 4096 ≡ 0
      → off + n * 4096 ≤ stage_offset b
      → flash.xip (copy_sectors flash b n off s) x ≡ (
          if leb off x && ltb x (off + n * 4096)
          then flash.xip s (stage_offset b + x)
          else flash.xip s x)
  unfolding copy_sectors
  copy_sectors_lem zero off s x al fit = ground arith
  copy_sectors_lem (suc n) off s x al fit =
      let copy_buf = window (flash.xip s) (stage_offset b + off) 4096 in
      let s' = flash.flash_range_program off copy_buf (flash.flash_range_erase off 4096 s) in
      let here = copy_sector_lem off s x al in
      let there = copy_sector_lem off s (stage_offset b + x) al in
      ground (arith, copy_sectors_lem n (off + 4096) s' x (omega arith) (omega arith), here, there)

  -- The task copies what is staged, where it starts at all.
  pub ota_apply_task-Installed :
      (bs : List ℕ) (o : Ota) (s : S)
      → Staged flash b bs o s
      → let (rebooted, o', s') = ota_apply_task flash b o s in
        rebooted ≡ true → (i : ℕ) → i < length bs → flash.xip s' i ≡ get_or bs i 0xff
  unfolding ota_apply_task ota_apply_job
  ota_apply_task-Installed bs o s st started i lt =
      let sectors = (whole_sectors o.ota_received + 4095) / 4096 in
      let enough : length bs ≤ sectors * 4096 =
        omega (arith, st.counted, st.fits, board.in_range) in
      let inside : 0 + sectors * 4096 ≤ stage_offset b =
        omega (arith, st.counted, st.fits, board.in_range, board.aligned) in
      let copied = copy_sectors_lem sectors 0 s i refl inside in
      let job = ota_apply_job flash b (whole_sectors o.ota_received) in
      let done = ap (λ m. flash.xip m i) (good.executed job 5000 s started) in
      let staged = st.staged i (omega (arith, st.enough, lt)) in
      done ∙ copied ∙ ground (arith, enough, lt, staged)

abbrev keeps_image : OtaState → Bool
keeps_image idle = false
keeps_image receiving = false
keeps_image received = true
keeps_image verified = true
keeps_image applying = true
keeps_image error = false

module _ {S : Type 0} (flash : Flash S) (b : Board) where
  -- Requests one after another, each with what xTaskCreate would answer.
  unfoldable pub ask : (List ℕ → ℕ) → List (Bool × List Param) → Ota → S → Ota
  unfolding http_rest_ota_state
  ask strtoul [] o s = o
  ask strtoul ((created, ps) ∷ rs) o s =
      ask strtoul rs (http_rest_ota_state flash b strtoul created ps o s).1 s

  -- In the states that an image leads through, it is staged.
  abbrev Ready : List ℕ → Ota → S → Type 0
  Ready bs o s = keeps_image o.ota_state ≡ true → Staged flash b bs o s

  relabel :
      (state : OtaState) (check : ℕ) (message : Message) (bs : List ℕ) (o : Ota) (s : S)
      → Staged flash b bs o s
      → Staged flash b bs (record o { ota_state = state; ota_crc = check; ota_message = message }) s
  relabel state check message bs o s st = record {
    empty = st.empty;
    buffer = st.buffer;
    counted = st.counted;
    fits = st.fits;
    enough = st.enough;
    tight = st.tight;
    staged = st.staged;
  }

  verify_image-Ready :
      (check : ℕ) (bs : List ℕ) (o : Ota) (s : S)
      → Staged flash b bs o s
      → Ready bs (verify_image flash b check o s) s
  unfolding verify_image
  verify_image-Ready check bs o s st =
      let found = crc32_flash flash (stage_offset b) o.ota_received s in
      elim (Bool-cases (found == check)) [
        | inl same ↦ elim (Bool-cases (staged_image_plausible flash b o.ota_received s)) [
          | inl plausible ↦
              rw (same, plausible) (λ _. relabel verified found verified_text bs o s st)
          | inr odd ↦ rw (same, odd) (λ t. absurd (ground (arith, t)))
        ]
        | inr wrong ↦ rw wrong (λ t. absurd (ground (arith, t)))
      ]

  act-Ready :
      (created : Bool) (check : ℕ) (have_crc : Bool) (a : Option Action) (bs : List ℕ) (o : Ota)
      (s : S)
      → Ready bs o s
      → Ready bs (act flash b created check have_crc a o s).1 s
  unfolding act
  act-Ready created check have_crc none bs o s h = h
  act-Ready created check have_crc (some reset) bs o s h =
      if-holds (λ o'. Ready bs o' s)
        (not (is_applying o.ota_state) && not (is_receiving o.ota_state))
        (λ t. absurd (ground (arith, t))) h
  act-Ready created check have_crc (some verify) bs o s h =
      if-cases (λ o'. Ready bs o' s) (is_received o.ota_state && have_crc)
        (λ e. verify_image-Ready check bs o s (h (ground (arith, e)))) (λ _. h)
  act-Ready created check have_crc (some apply) bs o s h =
      if-cases (λ (r : Bool × Ota). Ready bs r.1 s) (is_verified o.ota_state)
        (λ e.
          if-holds (λ o'. Ready bs o' s) created
            (λ _. relabel applying o.ota_crc flashing bs o s (h (ground (arith, e))))
            (λ t. absurd (ground (arith, t))))
        (λ _. h)
  act-Ready created check have_crc (some other_action) bs o s h = h

  ask-Ready :
      (strtoul : List ℕ → ℕ) (rs : List (Bool × List Param)) (bs : List ℕ) (o : Ota) (s : S)
      → Ready bs o s
      → Ready bs (ask strtoul rs o s) s
  unfolding ask
  ask-Ready strtoul [] bs o s h = h
  ask-Ready strtoul ((created, ps) ∷ rs) bs o s h =
      let r = read_params strtoul ps no_request in
      ask-Ready strtoul rs bs (http_rest_ota_state flash b strtoul created ps o s).1 s
        (act-Ready created r.client_crc r.have_crc r.action bs o s h)

  verify_image_lem :
      (o : Ota) (s : S)
      → staged_image_plausible flash b o.ota_received s ≡ true
      → verify_image flash b (crc32_flash flash (stage_offset b) o.ota_received s) o s ≡ record o {
        ota_crc = crc32_flash flash (stage_offset b) o.ota_received s;
        ota_state = verified;
        ota_message = verified_text;
      }
  unfolding verify_image
  verify_image_lem o s plausible =
      rw (eq→== (crc32_flash flash (stage_offset b) o.ota_received s) _ refl, plausible) refl

  -- A request with the right checksum makes a received, plausible image a verified one.
  pub verify_request_lem :
      (strtoul : List ℕ → ℕ) (v : List ℕ) (o : Ota) (s : S)
      → o.ota_state ≡ received
      → strtoul v ≡ crc32_flash flash (stage_offset b) o.ota_received s
      → staged_image_plausible flash b o.ota_received s ≡ true
      → (http_rest_ota_state flash b strtoul true (a0 verify ∷ crc v ∷ []) o s).1 ≡ record o {
        ota_crc = crc32_flash flash (stage_offset b) o.ota_received s;
        ota_state = verified;
        ota_message = verified_text;
      }
  unfolding http_rest_ota_state read_params act
  verify_request_lem strtoul v o s e same plausible =
      let open_to : is_received o.ota_state ≡ true = rw e refl in
      rw (open_to, same) (verify_image_lem o s plausible)

  -- A received image with a plausible vector table gets as far as the apply task, if the sender knows its
  -- checksum and the task can be created.
  pub ask-applying :
      (strtoul : List ℕ → ℕ) (v : List ℕ) (o : Ota) (s : S)
      → o.ota_state ≡ received
      → strtoul v ≡ crc32_flash flash (stage_offset b) o.ota_received s
      → staged_image_plausible flash b o.ota_received s ≡ true
      → (ask strtoul ((true, a0 verify ∷ crc v ∷ []) ∷ (true, a0 apply ∷ []) ∷ []) o s).ota_state
        ≡ applying
  unfolding ask http_rest_ota_state read_params act
  ask-applying strtoul v o s e same plausible =
      ap (λ x. (http_rest_ota_state flash b strtoul true (a0 apply ∷ []) x s).1.ota_state)
        (verify_request_lem strtoul v o s e same plausible)

module _ {S : Type 0} (flash : Flash S) (good : IsFlash flash) (b : Board) (board : IsBoard b) where
  uploaded-Ready :
      (n : ℕ) (bs : List ℕ) (o : Ota) (s : S)
      → (o.ota_state ≡ error) ⊎ ((o.ota_state ≡ received) × (length bs ≡ n) × Staged flash b bs o s)
      → Ready flash b bs o s
  uploaded-Ready n bs o s (inl e) = λ t. absurd (ground (arith, t, e))
  uploaded-Ready n bs o s (inr (e, len, st)) = λ _. st

  -- Where an upload was accepted and the requests behind it, whatever they are, lead to the apply task,
  -- and the task reboots the board, the flash holds from its start the bytes that were uploaded, all of
  -- them and in order.
  pub update-Installed :
      (strtoul : List ℕ → ℕ) (c n : ℕ) (ps : List Pbuf) (rs : List (Bool × List Param)) (o : Ota)
      (s : S)
      → length o.sector_buf ≡ 4096
      → (httpd_post_begin b c ota_upload (pos n) o).0 ≡ err_ok
      → Chained ps
      → let (o1, s1) = upload flash b c n ps o s in
        let o2 = ask flash b strtoul rs o1 s1 in
        let (rebooted, o3, s2) = ota_apply_task flash b o2 s1 in
        o2.ota_state ≡ applying
        → rebooted ≡ true
        → (i : ℕ) → i < length (bytes_of ps)
        → flash.xip s2 i ≡ get_or (bytes_of ps) i 0xff
  update-Installed strtoul c n ps rs o s len ok chained at_task rebooted i lt =
      let r = upload flash b c n ps o s in
      let up = (upload-Staged flash good b board c n ps o s len ok chained).1 in
      let ready = uploaded-Ready n (bytes_of ps) r.0 r.1 up in
      let o2 = ask flash b strtoul rs r.0 r.1 in
      let st = ask-Ready flash b strtoul rs (bytes_of ps) r.0 r.1 ready (rw at_task refl) in
      ota_apply_task-Installed flash good b board (bytes_of ps) o2 r.1 st rebooted i lt
