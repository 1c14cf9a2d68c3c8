-- ===== src/Ota/Flash.antt =====
-- The flash writer of the update and its target partition: firmware/src/ota_update.c. The calls that
-- erase and program the flash are logged in the writer, oldest first.
pub mod Bytewise
pub mod Image
pub mod Install
mod Tests
use pad_proxy.Base.{
  ℕ, zero, suc, ◌+◌, ◌-◌, ◌*◌, ◌/◌, ◌%◌, Bool, true, false, Option, none, some, List, [], ◌∷◌, ◌++◌,
  Bytes, length, take, drop, replicate, ltb, ◌==◌, if◌then◌else◌, u32, u32_sub, bit_and, shr,
}

-- FLASH_SECTOR_SIZE of the SDK.
abbrev pub sector_size : ℕ
sector_size = 4096

-- The partition that `rom_get_uf2_target_partition` answers: its result and the field
-- `permissions_and_location`.
pub record PartitionAnswer : Type 0 where
  pub rc : ℕ  -- 0, or the bit pattern of an error
  pub permissions_and_location : ℕ

-- `*flash_offset` and `*max_size`, or `none` for false.
unfoldable pub find_target_partition : PartitionAnswer → Option (ℕ × ℕ)
find_target_partition part =
    let first = bit_and part.permissions_and_location 0x1FFF in
    let last = bit_and (shr part.permissions_and_location 13) 0x1FFF in
    if part.rc == 0
    then some (u32 (first * sector_size), u32 (u32 (u32_sub last first + 1) * sector_size))
    else none

-- A call of `flash_range_erase` or `flash_range_program`, both made with interrupts disabled.
pub data FlashCall : Type 0 where
  erase : ℕ → ℕ → FlashCall
  program : ℕ → Bytes → FlashCall

pub record FlashWriter : Type 0 where
  pub flash_offset : ℕ
  pub partition_end : ℕ
  pub sector : Bytes  -- the first sector_pos bytes of sector_buf
  pub total_written : ℕ
  pub error : Bool
  pub calls : List FlashCall

unfoldable pub writer_init : ℕ → ℕ → List FlashCall → FlashWriter
writer_init start_offset max_size calls = record {
  flash_offset = start_offset;
  partition_end = u32 (start_offset + max_size);
  sector = [];
  total_written = 0;
  error = false;
  calls = calls;
}

-- `memset(…, 0xFF, …)` behind the bytes that are there.
abbrev pub padded : Bytes → Bytes
padded bs = bs ++ replicate (sector_size - length bs) 0xFF

-- The erase and the write of one sector.
unfoldable pub flashed : FlashWriter → FlashWriter
flashed fw = record fw {
  calls =
      fw.calls
      ++ (erase fw.flash_offset sector_size ∷ program fw.flash_offset (padded fw.sector) ∷ []);
  flash_offset = u32 (fw.flash_offset + sector_size);
  sector = [];
}

unfoldable pub flush : FlashWriter → Bool × FlashWriter
flush fw =
    if length fw.sector == 0
    then (true, fw)
    else if ltb fw.partition_end (u32 (fw.flash_offset + sector_size))
    then (false, fw)
    else (true, flashed fw)

-- `fw->error = true; return false;`
abbrev pub failed : FlashWriter → Bool × FlashWriter
failed fw = (false, record fw { error = true })

-- The copy of one chunk into the sector buffer.
unfoldable pub filled : Bytes → FlashWriter → FlashWriter
filled chunk fw = record fw {
  sector = fw.sector ++ chunk;
  total_written = u32 (fw.total_written + length chunk);
}

-- The loop of `flash_write_cb` over the bytes that are left; `none` where the fuel runs out.
unfoldable pub write_loop : ℕ → Bytes → FlashWriter → Option (Bool × FlashWriter)
write_loop fuel [] fw = some (true, fw)
write_loop zero (b ∷ bs) fw = none
write_loop (suc fuel) (b ∷ bs) fw =
    let room = sector_size - length fw.sector in
    let fw1 = filled (take room (b ∷ bs)) fw in
    let (ok, fw2) = flush fw1 in
    let is_full = length fw1.sector == sector_size in
    let rest = write_loop fuel (drop room (b ∷ bs)) (if is_full then fw2 else fw1) in
    if is_full then (if ok then rest else some (failed fw2)) else rest

abbrev pub outcome : FlashWriter → Option (Bool × FlashWriter) → Bool × FlashWriter
outcome fw none = (false, fw)
outcome fw (some r) = r

-- With one round of fuel more than there are bytes.
unfoldable pub flash_write_cb : Bytes → FlashWriter → Bool × FlashWriter
flash_write_cb bytes fw = outcome fw (write_loop (suc (length bytes)) bytes fw)
