-- ===== src/Ota/Flash/Tests.antt =====
-- The flash writer on small images.
use pad_proxy.Base.{
  ◌+◌, ◌*◌, ◌≡◌, ◌≤◌, ◌↔◌, true, false, some, List, [], ◌∷◌, Bytes, length, replicate, refl, arith,
}
use pad_proxy.Ota.Flash.{
  find_target_partition, FlashWriter, sector_size, write_loop, flash_write_cb,
}
use pad_proxy.Ota.Flash.Bytewise.{write_bytes, flash_write_cb-write_bytes}
use pad_proxy.Ota.Flash.Image.{Safe}
use pad_proxy.Ota.Flash.Install.{concat, install, Installed, install-Safe, install_iff}

-- The sectors 2 to 257.
second_slot :
    find_target_partition (record { rc = 0; permissions_and_location = 2 + 257 * 8192 })
    ≡ some (8192, 1048576)
unfolding find_target_partition
second_slot = refl

-- Two bytes short of a sector.
abbrev almost_full : FlashWriter
almost_full = record {
  flash_offset = 8192;
  partition_end = 16384;
  sector = replicate 4094 1;
  total_written = 4094;
  error = false;
  calls = [];
}

abbrev small_image : List Bytes
small_image = (1 ∷ 2 ∷ []) ∷ (3 ∷ []) ∷ []

flash_write_cb-write_bytes_example :
    (write_loop 3 (7 ∷ 8 ∷ 9 ∷ []) almost_full ≡ some (write_bytes (7 ∷ 8 ∷ 9 ∷ []) almost_full))
    × (flash_write_cb (7 ∷ 8 ∷ 9 ∷ []) almost_full ≡ write_bytes (7 ∷ 8 ∷ 9 ∷ []) almost_full)
flash_write_cb-write_bytes_example =
    flash_write_cb-write_bytes (7 ∷ 8 ∷ 9 ∷ []) almost_full (omega arith)

install-Safe_example :
    let (ok, fw) = install 8192 8192 small_image in
    Safe 8192 (8192 + 8192) fw × (ok ≡ true → Installed 8192 (8192 + 8192) (concat small_image) fw)
install-Safe_example = install-Safe 8192 8192 small_image (omega arith)

install_iff_example :
    ((install 8192 (2 * sector_size) small_image).0 ≡ true)
    ↔ (length (concat small_image) ≤ 2 * sector_size)
install_iff_example = install_iff 8192 2 small_image (omega arith)
