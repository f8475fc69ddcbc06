-- ===== src/Gpt/Fixup.antt =====
-- goldboot/src/gpt.rs: changing the table of a disk that an image was written to. The last partition
-- grows to the end of the disk, the backup table is moved there, and the EFI partition is looked up.
pub mod Entries
pub mod Chosen
pub mod Extends
pub mod Sectors
pub mod Mirrors
use goldboot.Base.{
  ℕ, ◌+◌, ◌-◌, ◌*◌, ◌/◌, ◌^◌, min, ◌||◌, not, List, [], ◌∷◌, Option, none, some, slice, ltb, leb,
  bytes_eq, if◌then◌else◌, Result, ok, err, bind, panicked, write_at, le_bytes,
}
use goldboot.Apply.{Dest, put}
use goldboot.Handle.{read_slice}
use goldboot.Gpt.Entry.{Uuid, esp_type_guid, uuid_eq, PartitionEntry}
use goldboot.Gpt.Table.{read_gpt, write_gpt_table}
use goldboot.Gpt.Write.{disk_last_lba}

-- The sector count of a protective MBR; another first sector is left alone.
unfoldable pub fix_protective_mbr : ℕ → Dest → Result Dest
fix_protective_mbr last dest = bind (read_slice 0 512 dest.content) λ mbr.
    if not (bytes_eq (slice 510 1 mbr) (0x55 ∷ []))
      || not (bytes_eq (slice 511 1 mbr) (0xAA ∷ []))
      || not (bytes_eq (slice 450 1 mbr) (0xEE ∷ []))
    then ok dest
    else put 0 (write_at 458 (le_bytes 4 (min last 0xFFFFFFFF)) mbr) dest

-- The primary header for a disk of another size.
unfoldable pub primary_sector : ℕ → List ℕ → List ℕ
primary_sector last raw_sector =
    let primary1 = write_at 32 (le_bytes 8 last) raw_sector in
    write_at 48 (le_bytes 8 (last - 33)) primary1

unfoldable pub backup_sector : ℕ → ℕ → List ℕ → List ℕ
backup_sector last my_lba raw_sector =
    let backup1 = write_at 24 (le_bytes 8 last) raw_sector in
    let backup2 = write_at 32 (le_bytes 8 my_lba) backup1 in
    let backup3 = write_at 48 (le_bytes 8 (last - 33)) backup2 in
    write_at 72 (le_bytes 8 (last - 32)) backup3

unfoldable pub fixup_backup_gpt : ℕ → Dest → Result Dest
fixup_backup_gpt dest_size dest = bind (read_gpt dest) λ found. elim found [
  | none ↦ ok dest
  | some gpt ↦
      if ltb (dest_size / 512) 34
      then err panicked
      else (let last = disk_last_lba dest_size in
          let h = gpt.header in
          bind (fix_protective_mbr last dest) λ dest1.
            bind
              (write_gpt_table h.my_lba h.part_entry_lba (primary_sector last h.raw_sector)
                h.header_size gpt.entries_raw dest1)
              λ dest2.
                write_gpt_table last (last - 32) (backup_sector last h.my_lba h.raw_sector)
                  h.header_size gpt.entries_raw dest2)
]

pub record ExtendedPartition : Type 0 where
  pub index : ℕ
  pub first_lba : ℕ
  pub new_last_lba : ℕ
  pub type_guid : Uuid
  pub unique_guid : Uuid

-- `max_by_key(|e| e.first_lba)`: of equal ones the last.
unfoldable pub later_of : PartitionEntry → Option PartitionEntry → PartitionEntry
later_of e none = e
later_of e (some later) = if leb e.first_lba later.first_lba then later else e

unfoldable pub last_partition : List PartitionEntry → Option PartitionEntry
last_partition [] = none
last_partition (e ∷ es) = some (later_of e (last_partition es))

-- The raw entries with another `last_lba` in the entry of that number.
unfoldable pub set_last_lba : ℕ → ℕ → ℕ → List ℕ → List ℕ
set_last_lba index entry_size last_lba entries_raw =
    write_at ((index - 1) * entry_size + 40) (le_bytes 8 last_lba) entries_raw

unfoldable pub extend_last_partition : ℕ → Dest → Result (Dest × Option ExtendedPartition)
extend_last_partition dest_size dest = bind (read_gpt dest) λ found. elim found [
  | none ↦ ok (dest, none)
  | some gpt ↦
      if ltb (dest_size / 512) 34 then err panicked else elim (last_partition gpt.entries) [
        | none ↦ ok (dest, none)
        | some target ↦
            let last = disk_last_lba dest_size - 33 in
            let h = gpt.header in
            if leb (2 ^ 64) (target.last_lba + 2048)
            then err panicked
            else if leb last (target.last_lba + 2048)
            then ok (dest, none)
            else (bind
                (write_gpt_table h.my_lba h.part_entry_lba h.raw_sector h.header_size
                  (set_last_lba target.index h.entry_size last gpt.entries_raw) dest)
                λ dest1. ok (
                  dest1,
                  some (record {
                    index = target.index;
                    first_lba = target.first_lba;
                    new_last_lba = last;
                    type_guid = target.type_guid;
                    unique_guid = target.unique_guid;
                  }),
                ))
      ]
]

unfoldable pub first_esp : List PartitionEntry → Option PartitionEntry
first_esp [] = none
first_esp (e ∷ es) = if uuid_eq e.type_guid esp_type_guid then some e else first_esp es

-- The device is passed open.
unfoldable pub find_esp : Dest → Result (Option PartitionEntry)
find_esp dest =
    bind (read_gpt dest)
      λ found. elim found [ none ↦ ok none | some gpt ↦ ok (first_esp gpt.entries) ]
