-- ===== src/Gpt/Entry.antt =====
-- goldboot/src/gpt.rs: GUIDs and partition entries, and their form on a disk.
pub mod RoundTrip
use goldboot.Base.{
  ℕ, zero, suc, ◌+◌, ◌*◌, Bool, true, false, ◌&&◌, not, List, [], ◌∷◌, ◌++◌, length, take, drop,
  slice, replicate, ltb, ◌==◌, if◌then◌else◌, Result, ok, err, panicked, bind, write_at, le_bytes,
  of_le, be_bytes, of_be,
}
use goldboot.Gpt.Utf16.{encode_utf16, from_utf16_lossy}

-- The fields of a `Uuid`. The last eight bytes are one number, the first of them highest.
pub record Uuid : Type 0 where
  pub d1 : ℕ
  pub d2 : ℕ
  pub d3 : ℕ
  pub tail : ℕ

abbrev pub nil : Uuid
nil = record { d1 = 0; d2 = 0; d3 = 0; tail = 0 }

abbrev pub esp_type_guid : Uuid
esp_type_guid = record { d1 = 0xC12A7328; d2 = 0xF81F; d3 = 0x11D2; tail = 0xBA4B00A0C93EC93B }

abbrev pub uuid_eq : Uuid → Uuid → Bool
uuid_eq u v = (u.d1 == v.d1) && (u.d2 == v.d2) && (u.d3 == v.d3) && (u.tail == v.tail)

unfoldable pub guid_from_disk : List ℕ → Uuid
guid_from_disk buf = record {
  d1 = of_le (slice 0 4 buf);
  d2 = of_le (slice 4 2 buf);
  d3 = of_le (slice 6 2 buf);
  tail = of_be (slice 8 8 buf);
}

unfoldable pub guid_to_disk : Uuid → List ℕ
guid_to_disk uuid =
    let out0 = replicate 16 0 in
    let out1 = write_at 0 (le_bytes 4 uuid.d1) out0 in
    let out2 = write_at 4 (le_bytes 2 uuid.d2) out1 in
    let out3 = write_at 6 (le_bytes 2 uuid.d3) out2 in write_at 8 (be_bytes 8 uuid.tail) out3

pub record PartitionEntry : Type 0 where
  pub index : ℕ
  pub type_guid : Uuid
  pub unique_guid : Uuid
  pub first_lba : ℕ
  pub last_lba : ℕ
  pub attributes : ℕ
  pub name : List ℕ

unfoldable pub is_used : PartitionEntry → Bool
is_used e = not (uuid_eq e.type_guid nil)

-- `chunks_exact(2)` as little-endian words; an odd byte at the end is left out.
unfoldable pub code_units : List ℕ → List ℕ
code_units [] = []
code_units (a ∷ []) = []
code_units (a ∷ b ∷ rest) = of_le (a ∷ b ∷ []) ∷ code_units rest

-- `take_while(|&c| c != 0)`.
unfoldable pub until_zero : List ℕ → List ℕ
until_zero [] = []
until_zero (c ∷ cs) = if c == 0 then [] else c ∷ until_zero cs

-- The slices panic when the raw entry is shorter than 56 bytes.
unfoldable pub parse_entry : ℕ → List ℕ → Result PartitionEntry
parse_entry index raw =
    if ltb (length raw) 56
    then err panicked
    else ok (record {
      index = index;
      type_guid = guid_from_disk (slice 0 16 raw);
      unique_guid = guid_from_disk (slice 16 16 raw);
      first_lba = of_le (slice 32 8 raw);
      last_lba = of_le (slice 40 8 raw);
      attributes = of_le (slice 48 8 raw);
      name = from_utf16_lossy (until_zero (code_units (drop 56 raw)));
    })

-- The loop over the name's code units, from the one at i.
unfoldable pub write_name : ℕ → List ℕ → List ℕ → List ℕ
write_name i [] raw = raw
write_name i (c ∷ cs) raw = write_name (suc i) cs (write_at (56 + i * 2) (le_bytes 2 c) raw)

-- The slices panic when the entry is too small for its fields or for the name.
unfoldable pub entry_to_disk : PartitionEntry → ℕ → Result (List ℕ)
entry_to_disk entry entry_size =
    let units = take 36 (encode_utf16 entry.name) in
    if ltb entry_size (56 + length units * 2)
    then err panicked
    else (let raw0 = replicate entry_size 0 in
        let raw1 = write_at 0 (guid_to_disk entry.type_guid) raw0 in
        let raw2 = write_at 16 (guid_to_disk entry.unique_guid) raw1 in
        let raw3 = write_at 32 (le_bytes 8 entry.first_lba) raw2 in
        let raw4 = write_at 40 (le_bytes 8 entry.last_lba) raw3 in
        let raw5 = write_at 48 (le_bytes 8 entry.attributes) raw4 in ok (write_name 0 units raw5))
