-- ===== src/Gpt/Found.antt =====
-- When `read_gpt` finds a table, and the writes that stay on the disk.
use goldboot.Base.{
  err, Result, Option, none, bind-eq-ok, subst, ap, ◌∙◌, ℕ, ◌+◌, ◌*◌, ◌^◌, ◌≤◌, ◌<◌, true, false,
  List, length, drop, slice, ltb, lt→ltb, ltb→lt, length-write_at, some, bytes_eq, ok, length-drop,
  write_at, ◌≡◌, refl, arith, inl, inr, Bool-cases, read_exact,
}
use native.Mathlib.Nat.{one-le-mul}
use goldboot.Apply.{Dest, put}
use goldboot.Handle.{read_slice, decode}
use goldboot.Gpt.Entry.{PartitionEntry}
use goldboot.Gpt.Sealed.{length-seal_header}
use goldboot.Gpt.Table.{
  GptHeader, Gpt, gpt_signature, header_of, looks_invalid, lba_offset, parse_entries, used_entries,
  read_gpt, seal_header, write_gpt_table,
}

pub read_slice-within :
    (at n : ℕ) (file : List ℕ) → at + n ≤ length file → read_slice at n file ≡ ok (slice at n file)
unfolding read_slice decode read_exact
read_slice-within at n file h =
    let enough : ltb (length (drop at file)) n ≡ false = ground (arith, length-drop at file) in
    rw enough refl

pub read_slice-ok :
    (at n : ℕ) (file found : List ℕ)
    → 0 < n
    → read_slice at n file ≡ ok found
    → (at + n ≤ length file) × (slice at n file ≡ found)
unfolding read_slice decode read_exact
read_slice-ok at n file found some_asked h = elim (Bool-cases (ltb (length (drop at file)) n)) [
  | inl q ↦ let failed = rw q at h in cc
  | inr q ↦ let read = rw q at h in (ground (arith, length-drop at file), cc)
]

pub put-within :
    (off : ℕ) (bytes : List ℕ) (d : Dest)
    → off + length bytes ≤ length d.content
    → put off bytes d ≡ ok (record d { content = write_at off bytes d.content })
unfolding put
put-within off bytes d h =
    let room : ltb (length d.content) (off + length bytes) ≡ false = ground arith in
    elim (Bool-cases d.is_file) [ inl q ↦ rw q refl | inr q ↦ rw (q, room) refl ]

pub lba_offset-within : (lba : ℕ) → lba * 512 < 2 ^ 64 → lba_offset lba ≡ ok (lba * 512)
unfolding lba_offset
lba_offset-within lba h = rw (lt→ltb (lba * 512) (2 ^ 64) h) refl

-- A table in bounds is written.
pub write_gpt_table-within :
    (header_lba entries_lba : ℕ) (sector : List ℕ) (header_size : ℕ) (raw : List ℕ) (d : Dest)
    → length sector ≡ 512
    → header_size ≤ 512
    → length d.content < 2 ^ 64
    → entries_lba * 512 + length raw ≤ length d.content
    → header_lba * 512 + 512 ≤ length d.content
    → write_gpt_table header_lba entries_lba sector header_size raw d
      ≡ ok (record d {
        content =
            write_at
              (header_lba * 512)
              (seal_header sector header_size raw)
              (write_at (entries_lba * 512) raw d.content);
      })
unfolding write_gpt_table
write_gpt_table-within header_lba entries_lba sector header_size raw d long size whole at at' =
    let fits : ltb 512 header_size ≡ false = ground arith in
    let after = write_at (entries_lba * 512) raw d.content in
    let room : header_lba * 512 + length (seal_header sector header_size raw) ≤ length after =
      omega (
        arith,
        length-seal_header sector header_size raw long,
        length-write_at (entries_lba * 512) raw d.content at,
      ) in
    rw
      (
        fits,
        lba_offset-within entries_lba (omega arith),
        put-within (entries_lba * 512) raw d at,
        lba_offset-within header_lba (omega arith),
      )
      (put-within (header_lba * 512) (seal_header sector header_size raw)
        (record d { content = after }) room)

-- A table on a disk: a header sector that passes the checks, and an array whose entries parse.
pub record Found (d : Dest) (gpt : Gpt) (all : List PartitionEntry) : Type 0 where
  pub sector : slice 512 512 d.content ≡ gpt.header.raw_sector
  pub sector_there : 1024 ≤ length d.content
  pub signed : bytes_eq (slice 0 8 gpt.header.raw_sector) gpt_signature ≡ true
  pub fields : header_of gpt.header.raw_sector ≡ gpt.header
  pub checked : looks_invalid gpt.header ≡ false
  pub at_fits : gpt.header.part_entry_lba * 512 < 2 ^ 64
  pub array_there :
      gpt.header.part_entry_lba * 512 + gpt.header.num_entries * gpt.header.entry_size
      ≤ length d.content
  pub array :
      slice
        (gpt.header.part_entry_lba * 512)
        (gpt.header.num_entries * gpt.header.entry_size)
        d.content
      ≡ gpt.entries_raw
  pub parsed : parse_entries gpt.header.num_entries gpt.header.entry_size 0 gpt.entries_raw ≡ ok all
  pub used : used_entries all ≡ gpt.entries

pub read_gpt-Found :
    (d : Dest) (gpt : Gpt) (all : List PartitionEntry)
    → Found d gpt all
    → read_gpt d ≡ ok (some gpt)
unfolding read_gpt
read_gpt-Found d gpt all f =
    let h = gpt.header in
    let at = h.part_entry_lba * 512 in
    rw
      (
        read_slice-within 512 512 d.content f.sector_there,
        f.sector,
        f.signed,
        f.fields,
        f.checked,
        lba_offset-within h.part_entry_lba f.at_fits,
        read_slice-within at (h.num_entries * h.entry_size) d.content f.array_there,
        f.array,
        f.parsed,
        f.used,
      )
      refl

pub checked-some :
    (h : GptHeader)
    → looks_invalid h ≡ false
    → (h.my_lba ≡ 1) × (0 < h.num_entries) × (0 < h.entry_size)
unfolding looks_invalid
checked-some h e = (ground arith, ground arith, ground arith)

lba_offset-ok : (lba at : ℕ) → lba_offset lba ≡ ok at → (lba * 512 < 2 ^ 64) × (lba * 512 ≡ at)
unfolding lba_offset
lba_offset-ok lba at h = elim (Bool-cases (ltb (lba * 512) (2 ^ 64))) [
  | inl q ↦ let yes = rw q at h in (ltb→lt (lba * 512) (2 ^ 64) q, cc)
  | inr q ↦ let no = rw q at h in cc
]

abbrev inner : Gpt → Result (Option Gpt) → Gpt
inner g (ok (some found)) = found
inner g (ok none) = g
inner g (err e) = g

-- What `read_gpt` has found is there.
pub found-read_gpt :
    (d : Dest) (gpt : Gpt)
    → read_gpt d ≡ ok (some gpt)
    → (all : List PartitionEntry) × Found d gpt all
unfolding read_gpt header_of
found-read_gpt d gpt h =
    let sector = bind-eq-ok (read_slice 512 512 d.content) _ h in
    let hdr = sector.0 in
    let (there, at) = read_slice-ok 512 512 d.content hdr (omega arith) sector.1 in
    elim (Bool-cases (bytes_eq (slice 0 8 hdr) gpt_signature)) [
      | inr q ↦ let no = rw q at (sector.2) in cc
      | inl q ↦ elim (Bool-cases (looks_invalid (header_of hdr))) [
        | inl q' ↦ let no = rw (q, q') at (sector.2) in cc
        | inr q' ↦
            let header = header_of hdr in
            let passed = rw (q, q') at (sector.2) in
            let offset = bind-eq-ok (lba_offset header.part_entry_lba) _ passed in
            let (fits, at_lba) = lba_offset-ok header.part_entry_lba offset.0 offset.1 in
            let size = header.num_entries * header.entry_size in
            let array = bind-eq-ok (read_slice offset.0 size d.content) _ offset.2 in
            let (one, some_entries, some_bytes) = checked-some header q' in
            let (array_there, array_at) =
              read_slice-ok offset.0 size d.content array.0 (one-le-mul some_entries some_bytes)
                array.1 in
            let entries =
              bind-eq-ok (parse_entries header.num_entries header.entry_size 0 array.0) _ array.2 in
            let joined : record {
              header = header;
              entries = used_entries entries.0;
              entries_raw = array.0;
            }
                ≡ gpt =
              ap (inner gpt) (entries.2) in
            subst (λ (g : Gpt). (all : List PartitionEntry) × Found d g all) joined
              (
                entries.0,
                record {
                  sector = at;
                  sector_there = there;
                  signed = q;
                  fields = refl;
                  checked = q';
                  at_fits = fits;
                  array_there = omega (arith, at_lba);
                  array = ap (λ (n : ℕ). slice n size d.content) at_lba ∙ array_at;
                  parsed = entries.1;
                  used = refl;
                },
              )
      ]
    ]
