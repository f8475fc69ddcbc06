-- ===== src/Gpt/Table.antt =====
-- goldboot/src/gpt.rs: reading the primary table of a disk, and writing a table to it. Reads are of
-- the disk's bytes; positions and sizes are 64-bit numbers, and arithmetic that leaves them panics.
pub mod Entries
use goldboot.Base.{
  ℕ, zero, suc, ◌+◌, ◌-◌, ◌*◌, ◌/◌, ◌^◌, min, Bool, true, false, ◌&&◌, ◌||◌, not, List, [], ◌∷◌,
  ◌++◌, Option, none, some, length, take, drop, slice, replicate, ltb, leb, ◌==◌, if◌then◌else◌,
  bytes_eq, Result, ok, err, bind, panicked, too_many_partitions, outside_usable_range, write_at,
  le_bytes, of_le,
}
use goldboot.Apply.{Dest, put}
use goldboot.Handle.{read_slice}
use goldboot.Gpt.Crc.{crc32}
use goldboot.Gpt.Entry.{Uuid, guid_to_disk, PartitionEntry, is_used, parse_entry, entry_to_disk}

pub record GptHeader : Type 0 where
  pub header_size : ℕ
  pub my_lba : ℕ
  pub alternate_lba : ℕ
  pub first_usable_lba : ℕ
  pub last_usable_lba : ℕ
  pub part_entry_lba : ℕ
  pub num_entries : ℕ
  pub entry_size : ℕ
  pub raw_sector : List ℕ

pub record Gpt : Type 0 where
  pub header : GptHeader
  pub entries : List PartitionEntry
  pub entries_raw : List ℕ

-- `b"EFI PART"`.
abbrev pub gpt_signature : List ℕ
gpt_signature = 69 ∷ 70 ∷ 73 ∷ 32 ∷ 80 ∷ 65 ∷ 82 ∷ 84 ∷ []

-- The fields of a header sector.
unfoldable pub header_of : List ℕ → GptHeader
header_of hdr = record {
  header_size = of_le (slice 12 4 hdr);
  my_lba = of_le (slice 24 8 hdr);
  alternate_lba = of_le (slice 32 8 hdr);
  first_usable_lba = of_le (slice 40 8 hdr);
  last_usable_lba = of_le (slice 48 8 hdr);
  part_entry_lba = of_le (slice 72 8 hdr);
  num_entries = of_le (slice 80 4 hdr);
  entry_size = of_le (slice 84 4 hdr);
  raw_sector = hdr;
}

unfoldable pub looks_invalid : GptHeader → Bool
looks_invalid h =
    not (h.my_lba == 1)
    || (h.alternate_lba == 0)
    || ltb h.header_size 92
    || (h.entry_size == 0)
    || (h.num_entries == 0)

-- The position of a sector; the multiplication overflows past 64 bits.
unfoldable pub lba_offset : ℕ → Result ℕ
lba_offset lba = if ltb (lba * 512) (2 ^ 64) then ok (lba * 512) else err panicked

-- n entries from the raw array, of which the first has number i + 1.
unfoldable pub parse_entries : ℕ → ℕ → ℕ → List ℕ → Result (List PartitionEntry)
parse_entries zero entry_size i raw = ok []
parse_entries (suc n) entry_size i raw =
    bind (parse_entry (suc i) (slice (i * entry_size) entry_size raw))
      λ entry. bind (parse_entries n entry_size (suc i) raw) λ rest. ok (entry ∷ rest)

unfoldable pub used_entries : List PartitionEntry → List PartitionEntry
used_entries [] = []
used_entries (e ∷ es) = if is_used e then e ∷ used_entries es else used_entries es

unfoldable pub read_gpt : Dest → Result (Option Gpt)
read_gpt dest = bind (read_slice 512 512 dest.content) λ hdr.
    if not (bytes_eq (slice 0 8 hdr) gpt_signature)
    then ok none
    else (let header = header_of hdr in
        if looks_invalid header
        then ok none
        else (bind (lba_offset header.part_entry_lba) λ at.
            bind (read_slice at (header.num_entries * header.entry_size) dest.content)
              λ entries_raw.
                bind (parse_entries header.num_entries header.entry_size 0 entries_raw) λ entries.
                  ok (
                    some (record {
                      header = header;
                      entries = used_entries entries;
                      entries_raw = entries_raw;
                    }))))

-- The header sector with both checksums.
unfoldable pub seal_header : List ℕ → ℕ → List ℕ → List ℕ
seal_header hdr_sector header_size entries_raw =
    let hdr1 = write_at 88 (le_bytes 4 (crc32 entries_raw)) hdr_sector in
    let hdr2 = write_at 16 (replicate 4 0) hdr1 in
    write_at 16 (le_bytes 4 (crc32 (take header_size hdr2))) hdr2

-- The slice of the header panics when it is larger than its sector.
unfoldable pub write_gpt_table : ℕ → ℕ → List ℕ → ℕ → List ℕ → Dest → Result Dest
write_gpt_table header_lba entries_lba hdr_sector header_size entries_raw dest =
    if ltb 512 header_size
    then err panicked
    else (bind (lba_offset entries_lba) λ entries_at.
        bind (put entries_at entries_raw dest) λ dest1.
          bind (lba_offset header_lba)
            λ header_at. put header_at (seal_header hdr_sector header_size entries_raw) dest1)
