-- ===== src/Gpt/Write/Headers.antt =====
-- The headers that `write_gpt` makes: what their fields are read as.
use goldboot.Base.{
  ℕ, ◌-◌, ◌^◌, ◌≤◌, ◌<◌, true, false, List, [], ◌∷◌, length, slice, ltb, ok, All, write_at, pad_to,
  le_bytes, be_bytes, of_le, of_le-le_bytes, bytes_eq, ◌≡◌, refl, arith,
}
use goldboot.Gpt.Entry.{Uuid, guid_to_disk, PartitionEntry}
use goldboot.Gpt.Table.{GptHeader, header_of, gpt_signature, seal_header}
use goldboot.Gpt.Write.{check_ranges, protective_mbr, header_template, place_header}

-- An entry within the usable sectors.
abbrev pub InRange : ℕ → ℕ → PartitionEntry → Type 0
InRange first last e = (first ≤ e.first_lba) × (e.last_lba ≤ last)

pub check_ranges-ok :
    (first last : ℕ) (es : List PartitionEntry)
    → All (InRange first last) es
    → check_ranges first last es ≡ ok tt
unfolding check_ranges
check_ranges-ok first last [] h = refl
check_ranges-ok first last (e ∷ es) h =
    let above : ltb e.first_lba first ≡ false = ground (arith, h.0.0) in
    let below : ltb last e.last_lba ≡ false = ground (arith, h.0.1) in
    rw (above, below) (check_ranges-ok first last es h.1)

-- The headers of a disk, before and after sealing.
abbrev pub header_sector : ℕ → ℕ → ℕ → ℕ → Uuid → List ℕ
header_sector my alternate part last disk_guid =
    place_header my alternate part (header_template 34 (last - 1 - 32) disk_guid)

pub length-header_sector :
    (my alternate part last : ℕ) (disk_guid : Uuid)
    → length (header_sector my alternate part last disk_guid) ≡ 512
unfolding place_header header_template write_at pad_to le_bytes guid_to_disk be_bytes
length-header_sector my alternate part last disk_guid = refl

pub length-protective_mbr : (last : ℕ) → length (protective_mbr last) ≡ 512
unfolding protective_mbr write_at pad_to le_bytes
length-protective_mbr last = refl

-- What the fields of a header of `write_gpt` are read as.
abbrev pub header_read : ℕ → ℕ → ℕ → ℕ → List ℕ → GptHeader
header_read my alternate part last sector = record {
  header_size = 92;
  my_lba = my;
  alternate_lba = alternate;
  first_usable_lba = 34;
  last_usable_lba = last - 1 - 32;
  part_entry_lba = part;
  num_entries = 128;
  entry_size = 128;
  raw_sector = sector;
}

pub header_of-sealed :
    (my alternate part last : ℕ) (disk_guid : Uuid) (raw : List ℕ)
    → my < 256 ^ 8
    → alternate < 256 ^ 8
    → part < 256 ^ 8
    → last < 256 ^ 8
    → header_of (seal_header (header_sector my alternate part last disk_guid) 92 raw)
      ≡ header_read my alternate part last
          (seal_header (header_sector my alternate part last disk_guid) 92 raw)
unfolding header_of seal_header place_header header_template write_at pad_to le_bytes guid_to_disk
    be_bytes of_le
header_of-sealed my alternate part last disk_guid raw h_my h_alt h_part h_last = λ i. record {
  header_size = 92;
  my_lba = of_le-le_bytes 8 my h_my i;
  alternate_lba = of_le-le_bytes 8 alternate h_alt i;
  first_usable_lba = 34;
  last_usable_lba = of_le-le_bytes 8 (last - 1 - 32) (omega arith) i;
  part_entry_lba = of_le-le_bytes 8 part h_part i;
  num_entries = 128;
  entry_size = 128;
  raw_sector = seal_header (header_sector my alternate part last disk_guid) 92 raw;
}

pub signed :
    (my alternate part last : ℕ) (disk_guid : Uuid) (raw : List ℕ)
    → bytes_eq
        (slice 0 8 (seal_header (header_sector my alternate part last disk_guid) 92 raw))
        gpt_signature
      ≡ true
unfolding seal_header place_header header_template write_at pad_to le_bytes guid_to_disk be_bytes
signed my alternate part last disk_guid raw = refl
