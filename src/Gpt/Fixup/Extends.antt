-- ===== src/Gpt/Fixup/Extends.antt =====
-- What `extend_last_partition` changes on a disk.
use goldboot.Base.{
  ℕ, suc, ◌+◌, ◌-◌, ◌*◌, ◌/◌, ◌^◌, ◌≤◌, ◌<◌, false, List, length, drop, slice, ltb, leb, map, some,
  ok, bytes_eq, write_at, length-write_at, slice-write_at, slice_apart-write_at, le_bytes,
  length-le_bytes, length-take, length-drop, ◌≡◌, refl, sym, ap, ◌∙◌, inl, inr, arith,
}
use native.Mathlib.Nat.{zero-add, suc-mul, mul-le-mul_right}
use goldboot.Apply.{Dest}
use goldboot.Gpt.Entry.{PartitionEntry}
use goldboot.Gpt.Table.{
  GptHeader, Gpt, gpt_signature, looks_invalid, header_of, parse_entries, seal_header, read_gpt,
  write_gpt_table,
}
use goldboot.Gpt.Write.{disk_last_lba}
use goldboot.Gpt.Sealed.{
  AgreeOn, beside_checksums, seal_header-beside_checksums, ChecksumsHold, seal_header-ChecksumsHold,
  length-seal_header, seal_header_keeps, header_of-seal_header,
}
use goldboot.Gpt.Found.{Found, read_gpt-Found, found-read_gpt, checked-some, write_gpt_table-within}
use goldboot.Gpt.Fixup.{ExtendedPartition, last_partition, set_last_lba, extend_last_partition}
use goldboot.Gpt.Fixup.Entries.{grow, parse_entries-grown}
use goldboot.Gpt.Fixup.Chosen.{
  IsNumbered, parse_entries-IsNumbered, parse_entries_large, used_entries-grow, last_partition-used,
  IsTrailing, last_partition-IsTrailing,
}

-- A table whose partition that starts last may grow: its header fits a sector, its array stands behind it, and
-- the partition ends more than 2048 sectors before the last usable one.
pub record CanGrow (dest_size : ℕ) (d : Dest) (gpt : Gpt) (target : PartitionEntry) : Type 0 where
  pub read : read_gpt d ≡ ok (some gpt)
  pub trailing : IsTrailing target gpt.entries
  pub size_fits : dest_size < 2 ^ 64
  pub large : 34 ≤ dest_size / 512
  pub space : target.last_lba + 2048 < disk_last_lba dest_size - 33
  pub header_small : gpt.header.header_size ≤ 512
  pub array_behind : 2 ≤ gpt.header.part_entry_lba
  pub addressable : length d.content < 2 ^ 64

leb_above : {a b : ℕ} → b < a → leb a b ≡ false
leb_above h = ground arith

-- The table afterwards: the chosen partition ends at the last usable sector.
abbrev pub grown_table : ℕ → PartitionEntry → List ℕ → List ℕ → Gpt → Gpt
grown_table last target sector entries_raw gpt = record {
  header = record (gpt.header) { raw_sector = sector };
  entries = map (grow target.index last) gpt.entries;
  entries_raw = entries_raw;
}

module _ (dest_size : ℕ) (d : Dest) (gpt : Gpt) (target : PartitionEntry)
    (can : CanGrow dest_size d gpt target) where
  h : GptHeader
  h = gpt.header

  last : ℕ
  last = disk_last_lba dest_size - 33

  all : List PartitionEntry
  all = (found-read_gpt d gpt can.read).0

  f : Found d gpt all
  unfolding all
  f = (found-read_gpt d gpt can.read).1

  size : ℕ
  size = h.num_entries * h.entry_size

  raw : List ℕ
  raw = set_last_lba target.index h.entry_size last gpt.entries_raw

  sealed : List ℕ
  sealed = seal_header h.raw_sector h.header_size raw

  length-raw_sector : length h.raw_sector ≡ 512
  unfolding h
  length-raw_sector = omega (
    arith,
    ap length f.sector,
    length-take 512 (drop 512 d.content),
    length-drop 512 d.content,
    f.sector_there,
  )

  length-entries_raw : length gpt.entries_raw ≡ size
  unfolding h size
  length-entries_raw = omega (
    arith,
    ap length f.array,
    length-take (h.num_entries * h.entry_size) (drop (h.part_entry_lba * 512) d.content),
    length-drop (h.part_entry_lba * 512) d.content,
    f.array_there,
  )

  chosen : last_partition gpt.entries ≡ some target
  chosen = last_partition-IsTrailing target gpt.entries can.trailing

  numbered : IsNumbered 0 h.num_entries target
  unfolding h
  numbered =
      last_partition-used (IsNumbered 0 h.num_entries) all target
        (parse_entries-IsNumbered h.num_entries h.entry_size 0 gpt.entries_raw all f.parsed)
        (ap last_partition f.used ∙ chosen)

  large_entries : 56 ≤ h.entry_size
  unfolding h
  large_entries =
      parse_entries_large h.num_entries h.entry_size 0 gpt.entries_raw all
        (checked-some h f.checked).1 f.parsed

  entry_there : (target.index - 1) * h.entry_size + h.entry_size ≤ length gpt.entries_raw
  unfolding size
  entry_there = omega (
    arith,
    length-entries_raw,
    suc-mul (target.index - 1) h.entry_size,
    mul-le-mul_right {m = suc (target.index - 1)} {n = h.num_entries} h.entry_size
        (omega (arith, numbered.0, numbered.1)),
  )

  last_fits : last < 256 ^ 8
  unfolding last
  last_fits = omega (arith, can.size_fits)

  length-raw : length raw ≡ size
  unfolding raw set_last_lba
  length-raw =
      length-write_at ((target.index - 1) * h.entry_size + 40) (le_bytes 8 last) gpt.entries_raw
        (omega (arith, entry_there, large_entries, length-le_bytes 8 last))
      ∙ length-entries_raw

  disk1 : List ℕ
  disk1 = write_at (h.part_entry_lba * 512) raw d.content

  disk2 : List ℕ
  disk2 = write_at (h.my_lba * 512) sealed disk1

  first_lba : h.my_lba ≡ 1
  unfolding h
  first_lba = (checked-some h f.checked).0

  raw_there : h.part_entry_lba * 512 + length raw ≤ length d.content
  unfolding h size
  raw_there = omega (arith, length-raw, f.array_there)

  length-disk1 : length disk1 ≡ length d.content
  unfolding disk1
  length-disk1 = length-write_at (h.part_entry_lba * 512) raw d.content raw_there

  length-sealed : length sealed ≡ 512
  unfolding sealed
  length-sealed = length-seal_header h.raw_sector h.header_size raw length-raw_sector

  sector_there : h.my_lba * 512 + 512 ≤ length d.content
  sector_there = omega (arith, first_lba, f.sector_there)

  sealed_there : h.my_lba * 512 + length sealed ≤ length disk1
  sealed_there = omega (arith, length-sealed, length-disk1, sector_there)

  length-disk2 : length disk2 ≡ length d.content
  unfolding disk2
  length-disk2 = length-write_at (h.my_lba * 512) sealed disk1 sealed_there ∙ length-disk1

  header_read : header_of sealed ≡ record h { raw_sector = sealed }
  unfolding sealed h
  header_read =
      header_of-seal_header h.raw_sector h.header_size raw length-raw_sector
      ∙ ap (λ (x : GptHeader). record x { raw_sector = sealed }) f.fields

  parsed_grown :
      parse_entries h.num_entries h.entry_size 0 raw ≡ ok (map (grow target.index last) all)
  unfolding raw set_last_lba h size
  parsed_grown =
      parse_entries-grown h.entry_size (target.index - 1) last gpt.entries_raw large_entries
        entry_there last_fits h.num_entries 0 all
        (omega
          (arith, length-entries_raw, ap (λ (n : ℕ). n * h.entry_size) (zero-add h.num_entries)))
        f.parsed
      ∙ ap (λ (j : ℕ). ok (map (grow j last) all)) (omega (arith, numbered.0))

  grown : Gpt
  grown = grown_table last target sealed raw gpt

  found_grown : Found (record d { content = disk2 }) grown (map (grow target.index last) all)
  unfolding grown h size sealed disk2 disk1 looks_invalid
  found_grown = record {
    sector =
        ap (λ (lba : ℕ). slice (lba * 512) 512 disk2) (sym first_lba)
        ∙ ap (λ (n : ℕ). slice (h.my_lba * 512) n disk2) (sym length-sealed)
        ∙ slice-write_at (h.my_lba * 512) sealed disk1 sealed_there;
    sector_there = omega (arith, length-disk2, f.sector_there);
    signed =
        ap (λ (t : List ℕ). bytes_eq t gpt_signature)
          (seal_header_keeps h.raw_sector h.header_size raw length-raw_sector 0 8
            (inl (omega arith)) (inl (omega arith)))
        ∙ f.signed;
    fields = header_read;
    checked = f.checked;
    at_fits = f.at_fits;
    array_there = omega (arith, length-disk2, f.array_there);
    array =
        slice_apart-write_at (h.my_lba * 512) sealed disk1 (h.part_entry_lba * 512) size
          sealed_there (inr (omega (arith, first_lba, length-sealed, can.array_behind)))
        ∙ ap (λ (n : ℕ). slice (h.part_entry_lba * 512) n disk1) (sym length-raw)
        ∙ slice-write_at (h.part_entry_lba * 512) raw d.content raw_there;
    parsed = parsed_grown;
    used = used_entries-grow target.index last all ∙ ap (map (grow target.index last)) f.used;
  }

  extended : ExtendedPartition
  extended = record {
    index = target.index;
    first_lba = target.first_lba;
    new_last_lba = last;
    type_guid = target.type_guid;
    unique_guid = target.unique_guid;
  }

  table_written :
      write_gpt_table h.my_lba h.part_entry_lba h.raw_sector h.header_size raw d
      ≡ ok (record d { content = disk2 })
  unfolding disk2 disk1 sealed h
  table_written =
      write_gpt_table-within h.my_lba h.part_entry_lba h.raw_sector h.header_size raw d
        length-raw_sector can.header_small can.addressable raw_there sector_there

  extends : extend_last_partition dest_size d ≡ ok (record d { content = disk2 }, some extended)
  unfolding extend_last_partition last raw h extended
  extends =
      let large : ltb (dest_size / 512) 34 ≡ false = ground (arith, can.large) in
      let small : leb (2 ^ 64) (target.last_lba + 2048) ≡ false =
        leb_above (omega (arith, can.space, can.size_fits)) in
      let far : leb (disk_last_lba dest_size - 33) (target.last_lba + 2048) ≡ false =
        leb_above can.space in
      rw (can.read, large, chosen, small, far, table_written) refl

  -- `extend_last_partition` grows the partition that starts last, the last of several in the table, when
  -- it ends more than 2048 sectors before the last usable one: it reports it with its new end, and
  -- `read_gpt` finds the same table afterwards, in which that partition ends at the last usable sector
  -- and every other field of every partition is as before. The header sector keeps all its bytes but
  -- the two checksums, which hold for it and for the new entries, and the disk keeps its size. The disk
  -- must have 34 sectors and fewer than 2^64 bytes, the header must fit its sector and the array stand
  -- behind it.
  pub extend_last_partition-grown_table :
      (after : Dest) × (sector : List ℕ) × (entries_raw : List ℕ) × (extend_last_partition dest_size
          d
        ≡ ok (
          after,
          some (record {
            index = target.index;
            first_lba = target.first_lba;
            new_last_lba = disk_last_lba dest_size - 33;
            type_guid = target.type_guid;
            unique_guid = target.unique_guid;
          }),
        ))
      × (length after.content ≡ length d.content)
      × (read_gpt after
          ≡ ok (some (grown_table (disk_last_lba dest_size - 33) target sector entries_raw gpt)))
      × (length sector ≡ 512)
      × AgreeOn beside_checksums sector gpt.header.raw_sector
      × ChecksumsHold gpt.header.header_size entries_raw sector
  unfolding last extended grown sealed h
  extend_last_partition-grown_table = (
    record d { content = disk2 },
    sealed,
    raw,
    extends,
    length-disk2,
    read_gpt-Found (record d { content = disk2 }) grown (map (grow target.index last) all)
        found_grown,
    length-sealed,
    seal_header-beside_checksums h.raw_sector h.header_size raw length-raw_sector,
    seal_header-ChecksumsHold h.raw_sector h.header_size raw length-raw_sector,
  )
