-- ===== src/Ota/Tests.antt =====
-- A small image, uploaded, verified and installed on a flash that is an array.
use Prim.Native.Nat.{◌+◌}
use open_trickler_rp2040_con.Prelude.{
  ℕ, ◌<◌, ◌≡◌, refl, ap, inl, Bool, true, false, ◌&&◌, leb, ltb, if◌then◌else◌, ◌⊎◌, none, List, [],
  ◌∷◌, ◌++◌, length, get_or, replicate, length-replicate, arith,
}
use open_trickler_rp2040_con.Prelude.Int.{pos}
use open_trickler_rp2040_con.Eeprom.Memory.{written}
use open_trickler_rp2040_con.Ota.{
  Flash, Board, Ota, err_ok, Pbuf, idle, received, error, empty, ota_upload, stage_offset,
  httpd_post_begin, httpd_post_receive_data, httpd_post_finished, flash_write_sector, flush_sector,
  copy_chain, ota_init, copy_buffer, flush_if_full, copy_chunk, flash_write_sector_job, padded,
}
use open_trickler_rp2040_con.Ota.Image.{
  Param, a0, crc, verify, apply, crc32_flash, staged_image_plausible, ota_apply_task,
}
use open_trickler_rp2040_con.Ota.Memory.{IsFlash, IsBoard}
use open_trickler_rp2040_con.Ota.Sector.{Staged}
use open_trickler_rp2040_con.Ota.Upload.{bytes_of, upload, receive_all, upload-Staged}
use open_trickler_rp2040_con.Ota.Verified.{
  Event, begin, receive, finish, request, step, run, trusted, Image, Sent, run-Verified,
}
use open_trickler_rp2040_con.Ota.Install.{ask, ask-applying, verify_request_lem, update-Installed}

abbrev array : Flash (ℕ → ℕ)
array = record {
  flash_range_erase = λ offset n m x. if leb offset x && ltb x (offset + n) then 0xff else m x;
  flash_range_program = λ offset ds m. written m offset ds;
  flash_safe_execute = λ job timeout m. (true, job m);
  xip = λ m x. m x;
}

array-IsFlash : IsFlash array
array-IsFlash = record {
  erase = λ offset m x al. refl;
  program = λ offset ds m x al len erased. refl;
  executed = λ job timeout m _. refl;
  refused = λ job timeout m _. inl refl;
}

abbrev small_board : Board
small_board = record {
  flash_size_bytes = 16384;
  sram_base = 0x20000000;
  sram_end = 0x20042000;
  pico_rp2350 = false;
}

small_board-IsBoard : IsBoard small_board
small_board-IsBoard = record { aligned = refl; in_range = omega arith }

abbrev fresh : Ota
fresh = record {
  ota_state = idle;
  ota_expected = 0;
  ota_received = 0;
  ota_crc = 0;
  ota_message = empty;
  sector_buf = replicate 4096 0;
  sector_fill = 0;
  sector_index = 0;
  ota_connection = none;
}

-- One sector, with the vector table behind the boot loader's 256 bytes.
abbrev image : List ℕ
image = replicate 256 0 ++ (0 ∷ 0 ∷ 0 ∷ 0x20 ∷ 0x01 ∷ 0x01 ∷ 0x00 ∷ 0x10 ∷ []) ++ replicate 3832 0

abbrev image_buf : Pbuf
image_buf = record { tot_len = 4096; chain = image ∷ [] }

abbrev blank : ℕ → ℕ
blank x = 0xff

begins : (httpd_post_begin small_board 7 ota_upload (pos 4096) fresh).0 ≡ err_ok
unfolding httpd_post_begin
begins = refl

upload-Staged_example :
    let ps = image_buf ∷ [] in
    let (o', s') = upload array small_board 7 4096 ps fresh blank in
    ((x : ℕ) → x < stage_offset small_board → s' x ≡ blank x)
    × ((o'.ota_state ≡ error)
        ⊎ ((o'.ota_state ≡ received)
            × (length (bytes_of ps) ≡ 4096)
            × Staged array small_board (bytes_of ps) o' s'))
upload-Staged_example =
    upload-Staged array array-IsFlash small_board small_board-IsBoard 7 4096 (image_buf ∷ []) fresh
      blank (length-replicate {A = ℕ} 4096 0) begins (refl, tt)

abbrev staged_image : Ota × (ℕ → ℕ)
staged_image = upload array small_board 7 4096 (image_buf ∷ []) fresh blank

staged_image-received : staged_image.0.ota_state ≡ received
unfolding upload receive_all httpd_post_begin httpd_post_receive_data httpd_post_finished copy_chain
    copy_buffer flush_sector flush_if_full copy_chunk flash_write_sector
staged_image-received = refl

staged_image-plausible :
    staged_image_plausible array small_board staged_image.0.ota_received staged_image.1 ≡ true
unfolding upload receive_all httpd_post_begin httpd_post_receive_data httpd_post_finished copy_chain
    copy_buffer flush_sector flush_if_full copy_chunk flash_write_sector flash_write_sector_job
    padded staged_image_plausible
staged_image-plausible = refl

-- A sender that knows the checksum.
abbrev knows_crc : List ℕ → ℕ
knows_crc v =
    crc32_flash array (stage_offset small_board) staged_image.0.ota_received staged_image.1

abbrev verify_and_apply : List (Bool × List Param)
verify_and_apply = (true, a0 verify ∷ crc [] ∷ []) ∷ (true, a0 apply ∷ []) ∷ []

abbrev upload_and_verify : List Event
upload_and_verify =
    begin 7 ota_upload (pos 4096)
    ∷ receive 7 image_buf
    ∷ finish 7
    ∷ request true (a0 verify ∷ crc [] ∷ [])
    ∷ []

verifies :
    trusted (run array small_board knows_crc upload_and_verify (ota_init fresh) blank).0.ota_state
    ≡ true
unfolding run step upload receive_all
verifies =
    ap (λ x. trusted x.ota_state)
      (verify_request_lem array small_board knows_crc [] staged_image.0 staged_image.1
        staged_image-received refl staged_image-plausible)

run-Verified_example :
    let (o', s') = run array small_board knows_crc upload_and_verify (ota_init fresh) blank in
    Image array small_board (Sent knows_crc upload_and_verify) o' s'
run-Verified_example =
    run-Verified array small_board knows_crc upload_and_verify fresh blank verifies

starts :
    (ota_apply_task array small_board
      (ask array small_board knows_crc verify_and_apply staged_image.0 staged_image.1)
      staged_image.1).0
    ≡ true
unfolding ota_apply_task
starts = refl

update-Installed_example :
    let o2 = ask array small_board knows_crc verify_and_apply staged_image.0 staged_image.1 in
    let (rebooted, o3, m) = ota_apply_task array small_board o2 staged_image.1 in
    m 260 ≡ get_or (bytes_of (image_buf ∷ [])) 260 0xff
update-Installed_example =
    update-Installed array array-IsFlash small_board small_board-IsBoard knows_crc 7 4096
      (image_buf ∷ []) verify_and_apply fresh blank (length-replicate {A = ℕ} 4096 0) begins
      (refl, tt)
      (ask-applying array small_board knows_crc [] staged_image.0 staged_image.1
        staged_image-received refl staged_image-plausible)
      starts 260 (omega arith)
