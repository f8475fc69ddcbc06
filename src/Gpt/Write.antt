-- ===== src/Gpt/Write.antt =====
-- goldboot/src/gpt.rs, `write_gpt`: a complete table on a blank disk.
pub mod Headers
pub mod Refused
use goldboot.Base.{
  ℕ, zero, suc, ◌+◌, ◌-◌, ◌*◌, ◌/◌, ◌^◌, min, ◌||◌, List, [], ◌∷◌, length, replicate, ltb,
  if◌then◌else◌, Result, ok, err, bind, panicked, too_many_partitions, outside_usable_range,
  write_at, le_bytes,
}
use goldboot.Apply.{Dest, put}
use goldboot.Gpt.Entry.{Uuid, guid_to_disk, PartitionEntry, entry_to_disk}
use goldboot.Gpt.Table.{gpt_signature, write_gpt_table}

-- The places of the table on a disk: 32 sectors of entries, the backup at the end.
abbrev pub disk_last_lba : ℕ → ℕ
disk_last_lba disk_size = disk_size / 512 - 1

unfoldable pub check_ranges : ℕ → ℕ → List PartitionEntry → Result (Unit {0})
check_ranges first last [] = ok tt
check_ranges first last (e ∷ es) =
    if ltb e.first_lba first || ltb last e.last_lba
    then err outside_usable_range
    else check_ranges first last es

-- The entries from slot i on.
unfoldable pub fill_entries : ℕ → List PartitionEntry → List ℕ → Result (List ℕ)
fill_entries i [] entries_raw = ok entries_raw
fill_entries i (e ∷ es) entries_raw =
    bind (entry_to_disk e 128) λ raw. fill_entries (suc i) es (write_at (i * 128) raw entries_raw)

unfoldable pub protective_mbr : ℕ → List ℕ
protective_mbr last_lba =
    let mbr0 = replicate 512 0 in
    let mbr1 = write_at 447 (0x00 ∷ 0x02 ∷ 0x00 ∷ []) mbr0 in
    let mbr2 = write_at 450 (0xEE ∷ []) mbr1 in
    let mbr3 = write_at 451 (0xFF ∷ 0xFF ∷ 0xFF ∷ []) mbr2 in
    let mbr4 = write_at 454 (le_bytes 4 1) mbr3 in
    let mbr5 = write_at 458 (le_bytes 4 (min last_lba 0xFFFFFFFF)) mbr4 in
    let mbr6 = write_at 510 (0x55 ∷ []) mbr5 in write_at 511 (0xAA ∷ []) mbr6

-- What the two headers share: the usable range, the disk's GUID, the size of the entries.
unfoldable pub header_template : ℕ → ℕ → Uuid → List ℕ
header_template first_usable_lba last_usable_lba disk_guid =
    let hdr0 = replicate 512 0 in
    let hdr1 = write_at 0 gpt_signature hdr0 in
    let hdr2 = write_at 8 (0x00 ∷ 0x00 ∷ 0x01 ∷ 0x00 ∷ []) hdr1 in
    let hdr3 = write_at 12 (le_bytes 4 92) hdr2 in
    let hdr4 = write_at 40 (le_bytes 8 first_usable_lba) hdr3 in
    let hdr5 = write_at 48 (le_bytes 8 last_usable_lba) hdr4 in
    let hdr6 = write_at 56 (guid_to_disk disk_guid) hdr5 in
    let hdr7 = write_at 80 (le_bytes 4 128) hdr6 in write_at 84 (le_bytes 4 128) hdr7

-- The fields that tell the primary from the backup.
unfoldable pub place_header : ℕ → ℕ → ℕ → List ℕ → List ℕ
place_header my_lba alternate_lba part_entry_lba hdr =
    let hdr1 = write_at 24 (le_bytes 8 my_lba) hdr in
    let hdr2 = write_at 32 (le_bytes 8 alternate_lba) hdr1 in
    write_at 72 (le_bytes 8 part_entry_lba) hdr2

-- `disk_guid` is what `Uuid::new_v4` returned. A disk of fewer than 34 sectors makes a subtraction
-- overflow.
unfoldable pub write_gpt : Uuid → ℕ → List PartitionEntry → Dest → Result Dest
write_gpt disk_guid disk_size entries dest =
    if ltb (disk_size / 512) 34
    then err panicked
    else (let last = disk_last_lba disk_size in
        if ltb 128 (length entries)
        then err too_many_partitions
        else (bind (check_ranges 34 (last - 1 - 32) entries) λ checked.
            bind (fill_entries 0 entries (replicate 16384 0)) λ entries_raw.
              bind (put 0 (protective_mbr last) dest) λ dest1.
                let hdr = header_template 34 (last - 1 - 32) disk_guid in
                bind (write_gpt_table 1 2 (place_header 1 last 2 hdr) 92 entries_raw dest1) λ dest2.
                  write_gpt_table last (last - 32) (place_header last 1 (last - 32) hdr) 92
                    entries_raw dest2))
