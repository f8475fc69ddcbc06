-- ===== src/Gui/Hooks.antt =====
-- goldboot/src/gui/state.rs, `post_write_hooks`: what follows a write to a device.
use goldboot.Base.{
  ℕ, ◌+◌, ◌*◌, slice, ◌-◌, Option, none, some, ltb, if◌then◌else◌, Result, ok, err, bind, panicked,
  Error, ◌≡◌, refl, List, map, arith,
}
use goldboot.Apply.{Dest}
use goldboot.Gpt.Entry.{Uuid, PartitionEntry}
use goldboot.Gpt.Table.{Gpt, header_of, read_gpt}
use goldboot.Gpt.Sealed.{
  AgreeOn, AgreeOn-trans, beside_primary, beside_backup, AgreeOn-beside_primary,
  AgreeOn-beside_backup, ChecksumsHold,
}
use goldboot.Gpt.Write.{disk_last_lba}
use goldboot.Gpt.Fixup.{ExtendedPartition, extend_last_partition, fixup_backup_gpt, find_esp}
use goldboot.Gpt.Fixup.Entries.{grow}
use goldboot.Gpt.Fixup.Extends.{CanGrow, extend_last_partition-grown_table}
use goldboot.Gpt.Fixup.Mirrors.{CanMirror, primary_header, backup_header, fixup_backup_gpt-mirrors}

pub record EspInfo : Type 0 where
  pub partition_number : ℕ
  pub partition_start_lba : ℕ
  pub partition_size_lba : ℕ
  pub partition_guid : Uuid

-- The size of a partition that ends before it starts makes the subtraction overflow.
unfoldable pub esp_info : PartitionEntry → Result EspInfo
esp_info esp =
    if ltb esp.last_lba esp.first_lba
    then err panicked
    else ok (record {
      partition_number = esp.index;
      partition_start_lba = esp.first_lba;
      partition_size_lba = esp.last_lba - esp.first_lba + 1;
      partition_guid = esp.unique_guid;
    })

-- A panic ends the thread; any other error is only warned about.
abbrev unless_panicked : Error → Result (Option EspInfo)
unless_panicked panicked = err panicked
unless_panicked _ = ok none

-- What is registered as a boot entry.
unfoldable pub boot_entry : Result (Option PartitionEntry) → Result (Option EspInfo)
boot_entry (err e) = unless_panicked e
boot_entry (ok none) = ok none
boot_entry (ok (some esp)) = bind (esp_info esp) λ info. ok (some info)

-- The file system in an extended partition is resized by programs outside, whose effect on the disk is
-- `resize`.
abbrev pub resized : (ExtendedPartition → Dest → Dest) → Option ExtendedPartition → Dest → Dest
resized resize none d = d
resized resize (some extended) d = resize extended d

-- The disk that is left, and the boot entry.
unfoldable pub post_write_hooks :
    (ExtendedPartition → Dest → Dest) → ℕ → Dest → Result (Dest × Option EspInfo)
post_write_hooks resize device_size d = bind (extend_last_partition device_size d) λ (d1, extended).
    bind (fixup_backup_gpt device_size d1) λ d2.
      let d3 = resized resize extended d2 in bind (boot_entry (find_esp d3)) λ entry. ok (d3, entry)

-- What is reported of the partition that has grown.
abbrev pub extended_to : ℕ → PartitionEntry → ExtendedPartition
extended_to last target = record {
  index = target.index;
  first_lba = target.first_lba;
  new_last_lba = last;
  type_guid = target.type_guid;
  unique_guid = target.unique_guid;
}

-- The disk that the hooks hand to the resize: a primary and a backup of the same partitions, of which
-- one has grown, with the other bytes of the header sector there was, and checksums that hold.
pub record IsExtended (device_size : ℕ) (gpt : Gpt) (target : PartitionEntry) (after : Dest)
    : Type 0 where
  pub sector : List ℕ
  pub copy : List ℕ
  pub entries_raw : List ℕ
  pub reads :
      read_gpt after
      ≡ ok (
          some (record {
            header = primary_header (disk_last_lba device_size) sector (gpt.header);
            entries = map (grow target.index (disk_last_lba device_size - 33)) gpt.entries;
            entries_raw = entries_raw;
          }))
  pub primary_kept : AgreeOn beside_primary sector gpt.header.raw_sector
  pub primary_holds : ChecksumsHold gpt.header.header_size entries_raw sector
  pub copied : slice (disk_last_lba device_size * 512) 512 after.content ≡ copy
  pub backup : header_of copy ≡ backup_header (disk_last_lba device_size) copy (gpt.header)
  pub backup_kept : AgreeOn beside_backup copy gpt.header.raw_sector
  pub backup_holds : ChecksumsHold gpt.header.header_size entries_raw copy
  pub entries_copied :
      slice
        ((disk_last_lba device_size - 32) * 512)
        (gpt.header.num_entries * gpt.header.entry_size)
        after.content
      ≡ entries_raw

-- On a device with a table that can grow and be mirrored, `post_write_hooks` makes the partition that
-- starts last reach the last usable sector, and writes a backup of the table at the end of the device,
-- before anything else: the resize is told of that partition and works on a disk on which `read_gpt`
-- finds the same partitions but for its end, whose last sector holds the backup header, 32 sectors
-- behind a copy of the entries, and where the checksums of both headers hold. What comes of the hooks is
-- then what comes of the search for the EFI partition on the resized disk.
pub post_write_hooks-grow :
    (resize : ExtendedPartition → Dest → Dest) (device_size : ℕ) (d : Dest) (gpt : Gpt)
    (target : PartitionEntry)
    → CanGrow device_size d gpt target
    → CanMirror device_size d gpt
    → (after : Dest) × IsExtended device_size gpt target after
      × (post_write_hooks resize device_size d
          ≡ bind
              (boot_entry
                (find_esp (resize (extended_to (disk_last_lba device_size - 33) target) after)))
              λ entry.
                ok (resize (extended_to (disk_last_lba device_size - 33) target) after, entry))
unfolding post_write_hooks
post_write_hooks-grow resize device_size d gpt target can can' =
    let (d1, sector1, raw1, extends, same_size, reads, long, kept, holds) =
      extend_last_partition-grown_table device_size d gpt target can in
    let again : CanMirror device_size d1 _ = record {
      read = reads;
      large = can'.large;
      on_disk = omega (arith, can'.on_disk, same_size);
      addressable = omega (arith, can'.addressable, same_size);
      header_small = can'.header_small;
      array_behind = can'.array_behind;
      array_small = can'.array_small;
      array_before = can'.array_before;
    } in
    let mirrored = fixup_backup_gpt-mirrors device_size d1 _ again in
    (
      mirrored.0,
      record {
        sector = mirrored.1;
        copy = mirrored.2;
        entries_raw = raw1;
        reads = mirrored.4;
        primary_kept =
            AgreeOn-trans beside_primary (mirrored.1) sector1 gpt.header.raw_sector (mirrored.5)
              (AgreeOn-beside_primary sector1 gpt.header.raw_sector kept);
        primary_holds = mirrored.6;
        copied = mirrored.7;
        backup = mirrored.8;
        backup_kept =
            AgreeOn-trans beside_backup (mirrored.2) sector1 gpt.header.raw_sector (mirrored.9)
              (AgreeOn-beside_backup sector1 gpt.header.raw_sector kept);
        backup_holds = mirrored.10;
        entries_copied = mirrored.11;
      },
      rw (extends, mirrored.3) refl,
    )
