-- ===== src/Gpt/Fixup/Mirrors.antt =====
-- What `fixup_backup_gpt` leaves on a disk: the same partitions, and a backup at the end.
use goldboot.Base.{
  ℕ, ◌+◌, ◌-◌, ◌*◌, ◌/◌, ◌^◌, ◌≤◌, ◌<◌, false, List, length, drop, slice, ltb, some, ok, bytes_eq,
  write_at, length-write_at, slice-write_at, slice_apart-write_at, length-take, length-drop, ◌≡◌,
  sym, ap, ◌∙◌, inl, inr, arith,
}
use goldboot.Apply.{Dest}
use goldboot.Gpt.Entry.{PartitionEntry}
use goldboot.Gpt.Table.{
  GptHeader, Gpt, gpt_signature, looks_invalid, header_of, seal_header, read_gpt,
}
use goldboot.Gpt.Write.{disk_last_lba}
use goldboot.Gpt.Sealed.{
  AgreeOn, AgreeOn-trans, beside_primary, beside_backup, AgreeOn-beside_primary,
  AgreeOn-beside_backup, seal_header-beside_checksums, ChecksumsHold, seal_header-ChecksumsHold,
  length-seal_header, seal_header_keeps, header_of-seal_header,
}
use goldboot.Gpt.Found.{Found, read_gpt-Found, found-read_gpt, checked-some, write_gpt_table-within}
use goldboot.Gpt.Fixup.{fix_protective_mbr, primary_sector, backup_sector, fixup_backup_gpt}
use goldboot.Gpt.Fixup.Sectors.{
  IsPatched, fix_protective_mbr-IsPatched, length-primary_sector, primary_signed,
  primary_sector-beside_primary, backup_sector-beside_backup, header_of-primary_sector,
  length-backup_sector, header_of-backup_sector,
}

-- A table whose entries fit 32 sectors, stand behind the header, and end before the last 33 sectors of
-- the disk.
pub record CanMirror (dest_size : ℕ) (d : Dest) (gpt : Gpt) : Type 0 where
  pub read : read_gpt d ≡ ok (some gpt)
  pub large : 34 ≤ dest_size / 512
  pub on_disk : dest_size ≤ length d.content
  pub addressable : length d.content < 2 ^ 64
  pub header_small : gpt.header.header_size ≤ 512
  pub array_behind : 2 ≤ gpt.header.part_entry_lba
  pub array_small : gpt.header.num_entries * gpt.header.entry_size ≤ 16384
  pub array_before :
      gpt.header.part_entry_lba * 512 + gpt.header.num_entries * gpt.header.entry_size
      ≤ (disk_last_lba dest_size - 32) * 512

-- The header of the primary and that of the backup, by the header there was.
abbrev pub primary_header : ℕ → List ℕ → GptHeader → GptHeader
primary_header last sector h = record h {
  alternate_lba = last;
  last_usable_lba = last - 33;
  raw_sector = sector;
}

abbrev pub backup_header : ℕ → List ℕ → GptHeader → GptHeader
backup_header last sector h = record h {
  my_lba = last;
  alternate_lba = h.my_lba;
  last_usable_lba = last - 33;
  part_entry_lba = last - 32;
  raw_sector = sector;
}

primary_header-valid :
    (last : ℕ) (sector : List ℕ) (h : GptHeader)
    → 0 < last
    → looks_invalid h ≡ false
    → looks_invalid (primary_header last sector h) ≡ false
unfolding looks_invalid
primary_header-valid last sector h some_last checked = ground arith

module _ (dest_size : ℕ) (d : Dest) (gpt : Gpt) (can : CanMirror dest_size d gpt) where
  h : GptHeader
  h = gpt.header

  last : ℕ
  last = disk_last_lba dest_size

  raw : List ℕ
  raw = gpt.entries_raw

  all : List PartitionEntry
  all = (found-read_gpt d gpt can.read).0

  f : Found d gpt all
  unfolding all
  f = (found-read_gpt d gpt can.read).1

  size : ℕ
  size = h.num_entries * h.entry_size

  length-raw_sector : length h.raw_sector ≡ 512
  unfolding h
  length-raw_sector = omega (
    arith,
    ap length f.sector,
    length-take 512 (drop 512 d.content),
    length-drop 512 d.content,
    f.sector_there,
  )

  length-raw : length raw ≡ size
  unfolding h size raw
  length-raw = omega (
    arith,
    ap length f.array,
    length-take (h.num_entries * h.entry_size) (drop (h.part_entry_lba * 512) d.content),
    length-drop (h.part_entry_lba * 512) d.content,
    f.array_there,
  )

  first_lba : h.my_lba ≡ 1
  unfolding h
  first_lba = (checked-some h f.checked).0

  primary : List ℕ
  primary = seal_header (primary_sector last h.raw_sector) h.header_size raw

  backup : List ℕ
  backup = seal_header (backup_sector last h.my_lba h.raw_sector) h.header_size raw

  length-primary : length primary ≡ 512
  unfolding primary
  length-primary =
      length-seal_header (primary_sector last h.raw_sector) h.header_size raw
        (length-primary_sector last h.my_lba h.raw_sector length-raw_sector)

  length-backup : length backup ≡ 512
  unfolding backup
  length-backup =
      length-seal_header (backup_sector last h.my_lba h.raw_sector) h.header_size raw
        (length-backup_sector last h.my_lba h.raw_sector length-raw_sector)

  patched : (d' : Dest) × (fix_protective_mbr last d ≡ ok d') × IsPatched d d'
  patched = fix_protective_mbr-IsPatched last d (omega (arith, f.sector_there))

  disk0 : List ℕ
  disk0 = patched.0.content

  disk1 : List ℕ
  disk1 = write_at (h.part_entry_lba * 512) raw disk0

  disk2 : List ℕ
  disk2 = write_at (h.my_lba * 512) primary disk1

  disk3 : List ℕ
  disk3 = write_at ((last - 32) * 512) raw disk2

  disk4 : List ℕ
  disk4 = write_at (last * 512) backup disk3

  last_low : 33 ≤ last
  unfolding last
  last_low = omega (arith, can.large)

  end : last * 512 + 512 ≤ length d.content
  unfolding last
  end = omega (arith, can.large, can.on_disk)

  before_end : h.part_entry_lba * 512 + size ≤ (last - 32) * 512
  unfolding h size last
  before_end = can.array_before

  small : size ≤ 16384
  unfolding h size
  small = can.array_small

  behind : 2 ≤ h.part_entry_lba
  unfolding h
  behind = can.array_behind

  length-disk0 : length disk0 ≡ length d.content
  unfolding disk0
  length-disk0 = patched.2.same_size

  raw_fits : h.part_entry_lba * 512 + length raw ≤ length disk0
  raw_fits = omega (arith, length-raw, length-disk0, before_end, end)

  length-disk1 : length disk1 ≡ length d.content
  unfolding disk1
  length-disk1 = length-write_at (h.part_entry_lba * 512) raw disk0 raw_fits ∙ length-disk0

  primary_fits : h.my_lba * 512 + length primary ≤ length disk1
  primary_fits = omega (arith, length-primary, length-disk1, first_lba, last_low, end)

  length-disk2 : length disk2 ≡ length d.content
  unfolding disk2
  length-disk2 = length-write_at (h.my_lba * 512) primary disk1 primary_fits ∙ length-disk1

  copy_fits : (last - 32) * 512 + length raw ≤ length disk2
  copy_fits = omega (arith, length-raw, length-disk2, last_low, small, end)

  length-disk3 : length disk3 ≡ length d.content
  unfolding disk3
  length-disk3 = length-write_at ((last - 32) * 512) raw disk2 copy_fits ∙ length-disk2

  backup_fits : last * 512 + length backup ≤ length disk3
  backup_fits = omega (arith, length-backup, length-disk3, end)

  length-disk4 : length disk4 ≡ length d.content
  unfolding disk4
  length-disk4 = length-write_at (last * 512) backup disk3 backup_fits ∙ length-disk3

  mirrored : fixup_backup_gpt dest_size d ≡ ok (record (patched.0) { content = disk4 })
  unfolding fixup_backup_gpt last h raw primary backup disk0 disk1 disk2 disk3 disk4
  mirrored =
      let large : ltb (dest_size / 512) 34 ≡ false = ground (arith, can.large) in
      rw
        (
          can.read,
          large,
          patched.1,
          write_gpt_table-within h.my_lba h.part_entry_lba (primary_sector last h.raw_sector)
              h.header_size raw (patched.0)
              (length-primary_sector last h.my_lba h.raw_sector length-raw_sector) can.header_small
              (omega (arith, length-disk0, can.addressable)) raw_fits
              (omega (arith, length-disk0, first_lba, last_low, end)),
        )
        (write_gpt_table-within last (last - 32) (backup_sector last h.my_lba h.raw_sector)
          h.header_size raw (record (patched.0) { content = disk2 })
          (length-backup_sector last h.my_lba h.raw_sector length-raw_sector) can.header_small
          (omega (arith, length-disk2, can.addressable)) copy_fits
          (omega (arith, length-disk2, end)))

  -- The backup does not touch what stands before its entries.
  before_backup : (at n : ℕ) → at + n ≤ (last - 32) * 512 → slice at n disk4 ≡ slice at n disk2
  unfolding disk4 disk3
  before_backup at n inside =
      slice_apart-write_at (last * 512) backup disk3 at n backup_fits (inl (omega arith))
      ∙ slice_apart-write_at ((last - 32) * 512) raw disk2 at n copy_fits (inl inside)

  primary_there : slice 512 512 disk4 ≡ primary
  unfolding disk2
  primary_there =
      before_backup 512 512 (omega (arith, before_end, behind))
      ∙ ap (λ (lba : ℕ). slice (lba * 512) 512 disk2) (sym first_lba)
      ∙ ap (λ (n : ℕ). slice (h.my_lba * 512) n disk2) (sym length-primary)
      ∙ slice-write_at (h.my_lba * 512) primary disk1 primary_fits

  raw_there : slice (h.part_entry_lba * 512) size disk4 ≡ raw
  unfolding disk2 disk1
  raw_there =
      before_backup (h.part_entry_lba * 512) size before_end
      ∙ slice_apart-write_at (h.my_lba * 512) primary disk1 (h.part_entry_lba * 512) size
          primary_fits (inr (omega (arith, first_lba, length-primary, behind)))
      ∙ ap (λ (n : ℕ). slice (h.part_entry_lba * 512) n disk1) (sym length-raw)
      ∙ slice-write_at (h.part_entry_lba * 512) raw disk0 raw_fits

  backup_there : slice (last * 512) 512 disk4 ≡ backup
  unfolding disk4
  backup_there =
      ap (λ (n : ℕ). slice (last * 512) n disk4) (sym length-backup)
      ∙ slice-write_at (last * 512) backup disk3 backup_fits

  copy_there : slice ((last - 32) * 512) size disk4 ≡ raw
  unfolding disk4 disk3
  copy_there =
      slice_apart-write_at (last * 512) backup disk3 ((last - 32) * 512) size backup_fits
        (inl (omega (arith, small, last_low)))
      ∙ ap (λ (n : ℕ). slice ((last - 32) * 512) n disk3) (sym length-raw)
      ∙ slice-write_at ((last - 32) * 512) raw disk2 copy_fits

  last_fits : last < 256 ^ 8
  last_fits = omega (arith, end, can.addressable)

  primary_read : header_of primary ≡ primary_header last primary h
  unfolding primary h
  primary_read =
      header_of-seal_header (primary_sector last h.raw_sector) h.header_size raw
        (length-primary_sector last h.my_lba h.raw_sector length-raw_sector)
      ∙ ap (λ (x : GptHeader). record x { raw_sector = primary })
          (header_of-primary_sector last h.my_lba h.raw_sector length-raw_sector last_fits
            ∙ ap (primary_header last (primary_sector last h.raw_sector)) f.fields)

  backup_read : header_of backup ≡ backup_header last backup h
  unfolding backup h
  backup_read =
      header_of-seal_header (backup_sector last h.my_lba h.raw_sector) h.header_size raw
        (length-backup_sector last h.my_lba h.raw_sector length-raw_sector)
      ∙ ap (λ (x : GptHeader). record x { raw_sector = backup })
          (header_of-backup_sector last h.my_lba h.raw_sector length-raw_sector last_fits
              (omega (arith, first_lba))
            ∙ ap
                (λ (x : GptHeader). record x {
                  my_lba = last;
                  alternate_lba = h.my_lba;
                  last_usable_lba = last - 33;
                  part_entry_lba = last - 32;
                  raw_sector = backup_sector last h.my_lba h.raw_sector;
                })
                f.fields)

  mirror : Gpt
  mirror = record {
    header = primary_header last primary h;
    entries = gpt.entries;
    entries_raw = raw;
  }

  still_valid : looks_invalid (primary_header last primary h) ≡ false
  unfolding h
  still_valid = primary_header-valid last primary h (omega (arith, last_low)) f.checked

  found_mirror : Found (record (patched.0) { content = disk4 }) mirror all
  unfolding mirror h raw size primary
  found_mirror = record {
    sector = primary_there;
    sector_there = omega (arith, length-disk4, f.sector_there);
    signed =
        ap (λ (t : List ℕ). bytes_eq t gpt_signature)
          (seal_header_keeps (primary_sector last h.raw_sector) h.header_size raw
              (length-primary_sector last h.my_lba h.raw_sector length-raw_sector) 0 8
              (inl (omega arith)) (inl (omega arith))
            ∙ primary_signed last h.my_lba h.raw_sector length-raw_sector)
        ∙ f.signed;
    fields = primary_read;
    checked = still_valid;
    at_fits = f.at_fits;
    array_there = omega (arith, length-disk4, f.array_there);
    array = raw_there;
    parsed = f.parsed;
    used = f.used;
  }

  -- `fixup_backup_gpt` keeps every partition: `read_gpt` finds the same entries afterwards, and a header
  -- sector that differs in the place of the backup, the last usable sector and the two checksums only.
  -- The last sector of the disk holds a backup header that names itself, the primary and the copy of the
  -- entries 32 sectors before it, and has the other bytes of the primary, the signature and the disk's
  -- GUID among them. The checksums of both headers hold. The size given must be 34 sectors at least and
  -- within the disk, the disk must have fewer than 2^64 bytes, the header must fit its sector, and the entries must fit 32 sectors, stand behind the
  -- primary header and end before the backup.
  pub fixup_backup_gpt-mirrors :
      (after : Dest) × (sector : List ℕ) × (copy : List ℕ) × (fixup_backup_gpt dest_size d
        ≡ ok after)
      × (read_gpt after
          ≡ ok (
              some (record {
                header = primary_header (disk_last_lba dest_size) sector (gpt.header);
                entries = gpt.entries;
                entries_raw = gpt.entries_raw;
              })))
      × AgreeOn beside_primary sector gpt.header.raw_sector
      × ChecksumsHold gpt.header.header_size gpt.entries_raw sector
      × (slice (disk_last_lba dest_size * 512) 512 after.content ≡ copy)
      × (header_of copy ≡ backup_header (disk_last_lba dest_size) copy (gpt.header))
      × AgreeOn beside_backup copy gpt.header.raw_sector
      × ChecksumsHold gpt.header.header_size gpt.entries_raw copy
      × (slice
            ((disk_last_lba dest_size - 32) * 512)
            (gpt.header.num_entries * gpt.header.entry_size)
            after.content
          ≡ gpt.entries_raw)
  unfolding last mirror h raw size primary backup
  fixup_backup_gpt-mirrors = (
    record (patched.0) { content = disk4 },
    primary,
    backup,
    mirrored,
    read_gpt-Found (record (patched.0) { content = disk4 }) mirror all found_mirror,
    AgreeOn-trans beside_primary primary (primary_sector last h.raw_sector) h.raw_sector
        (AgreeOn-beside_primary primary (primary_sector last h.raw_sector) (
          seal_header-beside_checksums (primary_sector last h.raw_sector) h.header_size raw
            (length-primary_sector last h.my_lba h.raw_sector length-raw_sector)))
        (primary_sector-beside_primary last h.my_lba h.raw_sector length-raw_sector),
    seal_header-ChecksumsHold (primary_sector last h.raw_sector) h.header_size raw
        (length-primary_sector last h.my_lba h.raw_sector length-raw_sector),
    backup_there,
    backup_read,
    AgreeOn-trans beside_backup backup (backup_sector last h.my_lba h.raw_sector) h.raw_sector
        (AgreeOn-beside_backup backup (backup_sector last h.my_lba h.raw_sector) (
          seal_header-beside_checksums (backup_sector last h.my_lba h.raw_sector) h.header_size raw
            (length-backup_sector last h.my_lba h.raw_sector length-raw_sector)))
        (backup_sector-beside_backup last h.my_lba h.raw_sector length-raw_sector),
    seal_header-ChecksumsHold (backup_sector last h.my_lba h.raw_sector) h.header_size raw
        (length-backup_sector last h.my_lba h.raw_sector length-raw_sector),
    copy_there,
  )
