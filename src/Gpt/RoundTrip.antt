-- ===== src/Gpt/RoundTrip.antt =====
-- What `write_gpt` leaves on a disk: both tables, of which `read_gpt` finds the first.
use goldboot.Base.{
  ℕ, ◌+◌, ◌-◌, ◌*◌, ◌/◌, ◌^◌, ◌≤◌, ◌<◌, false, List, ◌++◌, length, slice, ltb, some, Result, ok,
  bind, All, write_at, length-write_at, slice-write_at, slice_apart-write_at, ◌==◌, ◌≡◌, refl, sym,
  ap, ◌∙◌, arith, inl, inr,
}
use goldboot.Apply.{Dest}
use goldboot.Gpt.Entry.{Uuid, PartitionEntry}
use goldboot.Gpt.Entry.RoundTrip.{IsEntry}
use goldboot.Gpt.Table.{Gpt, header_of, looks_invalid, seal_header, read_gpt}
use goldboot.Gpt.Table.Entries.{
  numbered, blanks, IsUsed, slots, fill_entries-slots, parse_entries-slots, used_entries-slots,
  length-slots,
}
use goldboot.Gpt.Write.{disk_last_lba, protective_mbr, write_gpt}
use goldboot.Gpt.Sealed.{ChecksumsHold, seal_header-ChecksumsHold, length-seal_header}
use goldboot.Gpt.Found.{Found, read_gpt-Found, put-within, write_gpt_table-within}
use goldboot.Gpt.Write.Headers.{
  InRange, check_ranges-ok, header_sector, length-header_sector, length-protective_mbr, header_read,
  header_of-sealed, signed,
}

-- What `write_gpt` needs: entries that fit the table and the usable sectors, all in use, and a disk
-- that is large enough for both tables.
pub record IsWritable (disk_size : ℕ) (es : List PartitionEntry) (d : Dest) : Type 0 where
  pub entries_valid : All IsEntry es
  pub entries_used : All IsUsed es
  pub entries_few : length es ≤ 128
  pub in_range : All (InRange 34 (disk_last_lba disk_size - 1 - 32)) es
  pub large : 67 ≤ disk_size / 512
  pub on_disk : disk_size ≤ length d.content
  pub addressable : length d.content < 2 ^ 64

-- A table on a disk: the header sector with its fields, its checksums, and the array it points to.
pub record IsTable (content : List ℕ) (my alternate part last : ℕ) (raw : List ℕ) : Type 0 where
  pub sector : List ℕ
  pub at : slice (my * 512) 512 content ≡ sector
  pub fields : header_of sector ≡ header_read my alternate part last sector
  pub checksums : ChecksumsHold 92 raw sector
  pub array : slice (part * 512) 16384 content ≡ raw

module _ (disk_guid : Uuid) (disk_size : ℕ) (es : List PartitionEntry) (d : Dest)
    (w : IsWritable disk_size es d) where
  last : ℕ
  last = disk_last_lba disk_size

  primary : List ℕ
  unfolding last
  primary = seal_header (header_sector 1 last 2 last disk_guid) 92 (slots es)

  backup : List ℕ
  unfolding last
  backup = seal_header (header_sector last 1 (last - 32) last disk_guid) 92 (slots es)

  length-primary : length primary ≡ 512
  unfolding primary
  length-primary =
      length-seal_header (header_sector 1 last 2 last disk_guid) 92 (slots es)
        (length-header_sector 1 last 2 last disk_guid)

  length-backup : length backup ≡ 512
  unfolding backup
  length-backup =
      length-seal_header (header_sector last 1 (last - 32) last disk_guid) 92 (slots es)
        (length-header_sector last 1 (last - 32) last disk_guid)

  slots_long : length (slots es) ≡ 16384
  slots_long = length-slots es w.entries_valid w.entries_few

  -- The disk after each of the five writes.
  disk1 : List ℕ
  disk1 = write_at 0 (protective_mbr last) d.content

  disk2 : List ℕ
  disk2 = write_at 1024 (slots es) disk1

  disk3 : List ℕ
  disk3 = write_at 512 primary disk2

  disk4 : List ℕ
  disk4 = write_at ((last - 32) * 512) (slots es) disk3

  disk5 : List ℕ
  disk5 = write_at (last * 512) backup disk4

  -- The tables do not overlap, and end on the disk.
  last_low : 66 ≤ last
  unfolding last
  last_low = omega (arith, w.large)

  last_high : last * 512 + 512 ≤ length d.content
  unfolding last
  last_high = omega (arith, w.large, w.on_disk)

  mbr_fits : 0 + length (protective_mbr last) ≤ length d.content
  mbr_fits = omega (arith, length-protective_mbr last, last_low, last_high)

  length-disk1 : length disk1 ≡ length d.content
  unfolding disk1
  length-disk1 = length-write_at 0 (protective_mbr last) d.content mbr_fits

  slots_fit : 1024 + length (slots es) ≤ length disk1
  slots_fit = omega (arith, slots_long, length-disk1, last_low, last_high)

  length-disk2 : length disk2 ≡ length d.content
  unfolding disk2
  length-disk2 = length-write_at 1024 (slots es) disk1 slots_fit ∙ length-disk1

  primary_fits : 512 + length primary ≤ length disk2
  primary_fits = omega (arith, length-primary, length-disk2, last_low, last_high)

  length-disk3 : length disk3 ≡ length d.content
  unfolding disk3
  length-disk3 = length-write_at 512 primary disk2 primary_fits ∙ length-disk2

  backup_slots_fit : (last - 32) * 512 + length (slots es) ≤ length disk3
  backup_slots_fit = omega (arith, slots_long, length-disk3, last_low, last_high)

  length-disk4 : length disk4 ≡ length d.content
  unfolding disk4
  length-disk4 =
      length-write_at ((last - 32) * 512) (slots es) disk3 backup_slots_fit ∙ length-disk3

  backup_fits : last * 512 + length backup ≤ length disk4
  backup_fits = omega (arith, length-backup, length-disk4, last_low, last_high)

  length-disk5 : length disk5 ≡ length d.content
  unfolding disk5
  length-disk5 = length-write_at (last * 512) backup disk4 backup_fits ∙ length-disk4

  -- The backup does not touch what stands before its entries.
  before_backup : (at n : ℕ) → at + n ≤ (last - 32) * 512 → slice at n disk5 ≡ slice at n disk3
  unfolding disk5 disk4
  before_backup at n h =
      slice_apart-write_at (last * 512) backup disk4 at n backup_fits
        (inl (omega (arith, last_low)))
      ∙ slice_apart-write_at ((last - 32) * 512) (slots es) disk3 at n backup_slots_fit (inl h)

  primary_there : slice 512 512 disk5 ≡ primary
  unfolding disk3
  primary_there =
      before_backup 512 512 (omega (arith, last_low))
      ∙ ap (λ (n : ℕ). slice 512 n disk3) (sym length-primary)
      ∙ slice-write_at 512 primary disk2 primary_fits

  slots_there : slice 1024 16384 disk5 ≡ slots es
  unfolding disk3 disk2
  slots_there =
      before_backup 1024 16384 (omega (arith, last_low))
      ∙ slice_apart-write_at 512 primary disk2 1024 16384 primary_fits
          (inr (omega (arith, length-primary)))
      ∙ ap (λ (n : ℕ). slice 1024 n disk2) (sym slots_long)
      ∙ slice-write_at 1024 (slots es) disk1 slots_fit

  backup_there : slice (last * 512) 512 disk5 ≡ backup
  unfolding disk5
  backup_there =
      ap (λ (n : ℕ). slice (last * 512) n disk5) (sym length-backup)
      ∙ slice-write_at (last * 512) backup disk4 backup_fits

  backup_slots_there : slice ((last - 32) * 512) 16384 disk5 ≡ slots es
  unfolding disk5 disk4
  backup_slots_there =
      slice_apart-write_at (last * 512) backup disk4 ((last - 32) * 512) 16384 backup_fits
        (inl (omega (arith, last_low)))
      ∙ ap (λ (n : ℕ). slice ((last - 32) * 512) n disk4) (sym slots_long)
      ∙ slice-write_at ((last - 32) * 512) (slots es) disk3 backup_slots_fit

  written : write_gpt disk_guid disk_size es d ≡ ok (record d { content = disk5 })
  unfolding write_gpt last primary backup disk1 disk2 disk3 disk4 disk5
  written =
      let large : ltb (disk_size / 512) 34 ≡ false = ground (arith, w.large) in
      let few : ltb 128 (length es) ≡ false = ground (arith, w.entries_few) in
      rw
        (
          large,
          few,
          check_ranges-ok 34 (last - 1 - 32) es w.in_range,
          fill_entries-slots es w.entries_valid w.entries_few,
          put-within 0 (protective_mbr last) d mbr_fits,
          write_gpt_table-within 1 2 (header_sector 1 last 2 last disk_guid) 92 (slots es)
              (record d { content = disk1 }) (length-header_sector 1 last 2 last disk_guid)
              (omega arith) (omega (arith, length-disk1, w.addressable)) slots_fit
              (omega (arith, length-primary, primary_fits, length-disk1, length-disk2)),
        )
        (write_gpt_table-within last (last - 32) (header_sector last 1 (last - 32) last disk_guid)
          92 (slots es) (record d { content = disk3 })
          (length-header_sector last 1 (last - 32) last disk_guid) (omega arith)
          (omega (arith, length-disk3, w.addressable)) backup_slots_fit
          (omega (arith, length-disk3, last_high)))

  lba_small : last < 256 ^ 8
  lba_small = omega (arith, last_high, w.addressable)

  primary_fields : header_of primary ≡ header_read 1 last 2 last primary
  unfolding primary
  primary_fields =
      header_of-sealed 1 last 2 last disk_guid (slots es) (omega arith) lba_small (omega arith)
        lba_small

  checked : looks_invalid (header_read 1 last 2 last primary) ≡ false
  unfolding looks_invalid
  checked = let some_last : (last == 0) ≡ false = ground (arith, last_low) in rw some_last refl

  table : Gpt
  table = record {
    header = header_read 1 last 2 last primary;
    entries = numbered 0 es;
    entries_raw = slots es;
  }

  found :
      Found
        (record d { content = disk5 })
        table
        (numbered 0 es ++ blanks (0 + length es) (128 - length es))
  unfolding table primary
  found = record {
    sector = primary_there;
    sector_there = omega (arith, length-disk5, last_low, last_high);
    signed = signed 1 last 2 last disk_guid (slots es);
    fields = primary_fields;
    checked = checked;
    at_fits = omega arith;
    array_there = omega (arith, length-disk5, last_low, last_high);
    array = slots_there;
    parsed = parse_entries-slots es w.entries_valid w.entries_few;
    used = used_entries-slots es w.entries_valid w.entries_few w.entries_used;
  }

  -- After `write_gpt` has written a table onto a disk that is large enough for it, `read_gpt` finds it:
  -- the entries come back in order, numbered from 1, and the header tells the last sector, the usable
  -- range and the size of the array. The entries must be in use, fit the fields of an entry, a name of
  -- 36 code units included, lie in the usable range, and be 128 at most; the disk must have 67 sectors.
  pub read_gpt-write_gpt :
      (sector : List ℕ) × (bind (write_gpt disk_guid disk_size es d) read_gpt
        ≡ ok (
            some (record {
              header = header_read 1 (disk_last_lba disk_size) 2 (disk_last_lba disk_size) sector;
              entries = numbered 0 es;
              entries_raw = slots es;
            })))
  unfolding last table
  read_gpt-write_gpt = (
    primary,
    ap (λ (r : Result Dest). bind r read_gpt) written
        ∙ read_gpt-Found (record d { content = disk5 }) table _ found,
  )

  -- `write_gpt` leaves two tables on such a disk: the primary in its second sector, and the backup in
  -- its last, each naming the other, with 32 sectors of the same entries before the backup; in both, the
  -- checksum of the entries and that of the header, with its own field zeroed, hold. The size of the disk
  -- is kept.
  pub write_gpt-IsTable :
      (after : Dest) × (write_gpt disk_guid disk_size es d ≡ ok after)
      × (length after.content ≡ length d.content)
      × IsTable after.content 1 (disk_last_lba disk_size) 2 (disk_last_lba disk_size) (slots es)
      × IsTable after.content
          (disk_last_lba disk_size)
          1
          (disk_last_lba disk_size - 32)
          (disk_last_lba disk_size)
          (slots es)
  unfolding last primary backup
  write_gpt-IsTable = (
    record d { content = disk5 },
    written,
    length-disk5,
    record {
      sector = primary;
      at = primary_there;
      fields = primary_fields;
      checksums =
          seal_header-ChecksumsHold (header_sector 1 last 2 last disk_guid) 92 (slots es)
            (length-header_sector 1 last 2 last disk_guid);
      array = slots_there;
    },
    record {
      sector = backup;
      at = backup_there;
      fields =
          header_of-sealed last 1 (last - 32) last disk_guid (slots es) lba_small (omega arith)
            (omega (arith, lba_small)) lba_small;
      checksums =
          seal_header-ChecksumsHold (header_sector last 1 (last - 32) last disk_guid) 92 (slots es)
            (length-header_sector last 1 (last - 32) last disk_guid);
      array = backup_slots_there;
    },
  )
