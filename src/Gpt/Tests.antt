-- ===== src/Gpt/Tests.antt =====
-- A table with one partition on a disk of 80 sectors.
use goldboot.Base.{
  slice, ◌*◌, Result, sym, ap, ◌∙◌, ℕ, true, false, List, [], ◌∷◌, ◌≤◌, ◌/◌, length, replicate,
  length-replicate, some, ok, bind, bit_xor, All, ◌≡◌, refl, inl, arith,
}
use goldboot.Apply.{Dest}
use goldboot.Gpt.Crc.{table_step, table_steps, table_from, crc_bytes, crc32}
use goldboot.Gpt.Crc.Serial.{shift_bytes, crc32_serial}
use goldboot.Gpt.Entry.{esp_type_guid, PartitionEntry, is_used, parse_entry, entry_to_disk}
use goldboot.Gpt.Entry.RoundTrip.{IsEntry, parse_entry-entry_to_disk}
use goldboot.Gpt.Utf16.{encode_utf16, encode_char}
use goldboot.Gui.Hooks.{IsExtended, post_write_hooks, boot_entry, post_write_hooks-grow}
use goldboot.Gpt.Fixup.{find_esp, fixup_backup_gpt, extend_last_partition}
use goldboot.Gpt.Fixup.Mirrors.{CanMirror, primary_header, backup_header, fixup_backup_gpt-mirrors}
use goldboot.Gpt.Sealed.{AgreeOn, beside_checksums, beside_primary, beside_backup, ChecksumsHold}
use goldboot.Gpt.Fixup.Extends.{CanGrow, grown_table, extend_last_partition-grown_table}
use goldboot.Gpt.Table.{header_of, Gpt, read_gpt}
use goldboot.Gpt.Table.Entries.{numbered, slots}
use goldboot.Gpt.Write.{write_gpt}
use goldboot.Gpt.Write.Headers.{header_read}
use goldboot.Gpt.Write.Refused.{Within, write_gpt-Within}
use goldboot.Gpt.RoundTrip.{IsWritable, IsTable, read_gpt-write_gpt, write_gpt-IsTable}

abbrev digits : List ℕ
digits = 49 ∷ 50 ∷ 51 ∷ 52 ∷ 53 ∷ 54 ∷ 55 ∷ 56 ∷ 57 ∷ []

check_value : crc32 digits ≡ 0xcbf43926
unfolding crc32 crc_bytes table_from table_steps table_step
check_value = refl

crc32_serial_example : crc32 digits ≡ bit_xor (shift_bytes 0xffffffff digits) 0xffffffff
crc32_serial_example = crc32_serial digits (
  omega arith,
  (
    omega arith,
    (
      omega arith,
      (omega arith, (omega arith, (omega arith, (omega arith, (omega arith, (omega arith, tt)))))),
    ),
  ),
)

-- "EFI", from sector 40 to sector 42.
abbrev esp : PartitionEntry
esp = record {
  index = 1;
  type_guid = esp_type_guid;
  unique_guid = record { d1 = 1; d2 = 2; d3 = 3; tail = 4 };
  first_lba = 40;
  last_lba = 42;
  attributes = 0;
  name = 69 ∷ 70 ∷ 73 ∷ [];
}

esp-IsEntry : IsEntry esp
unfolding encode_utf16 encode_char
esp-IsEntry = record {
  type_valid = record {
    d1_fits = omega arith;
    d2_fits = omega arith;
    d3_fits = omega arith;
    tail_fits = omega arith;
  };
  unique_valid = record {
    d1_fits = omega arith;
    d2_fits = omega arith;
    d3_fits = omega arith;
    tail_fits = omega arith;
  };
  first_fits = omega arith;
  last_fits = omega arith;
  attributes_fit = omega arith;
  name_valid = (
    (inl (omega arith), omega arith),
    ((inl (omega arith), omega arith), ((inl (omega arith), omega arith), tt)),
  );
  name_short = omega arith;
}

esp_used : is_used esp ≡ true
unfolding is_used
esp_used = refl

abbrev disk : Dest
disk = record { is_file = false; content = replicate 40960 0 }

writable : IsWritable 40960 (esp ∷ []) disk
writable = record {
  entries_valid = (esp-IsEntry, tt);
  entries_used = (esp_used, tt);
  entries_few = omega arith;
  in_range = ((omega arith, omega arith), tt);
  large = omega arith;
  on_disk = omega (arith, length-replicate {A = ℕ} 40960 0);
  addressable = omega (arith, length-replicate {A = ℕ} 40960 0);
}

parse_entry-entry_to_disk_example :
    bind (entry_to_disk esp 128) (parse_entry 5) ≡ ok (record esp { index = 5 })
parse_entry-entry_to_disk_example = parse_entry-entry_to_disk 5 esp esp-IsEntry

read_gpt-write_gpt_example :
    (sector : List ℕ) × (bind (write_gpt esp_type_guid 40960 (esp ∷ []) disk) read_gpt
      ≡ ok (
          some (record {
            header = header_read 1 79 2 79 sector;
            entries = numbered 0 (esp ∷ []);
            entries_raw = slots (esp ∷ []);
          })))
read_gpt-write_gpt_example = read_gpt-write_gpt esp_type_guid 40960 (esp ∷ []) disk writable

write_gpt-IsTable_example :
    (after : Dest) × (write_gpt esp_type_guid 40960 (esp ∷ []) disk ≡ ok after)
    × (length after.content ≡ length disk.content)
    × IsTable after.content 1 79 2 79 (slots (esp ∷ []))
    × IsTable after.content 79 1 47 79 (slots (esp ∷ []))
write_gpt-IsTable_example = write_gpt-IsTable esp_type_guid 40960 (esp ∷ []) disk writable

write_gpt-Within_example :
    (34 ≤ 40960 / 512) × (length (esp ∷ []) ≤ 128) × All (Within 34 46) (esp ∷ [])
write_gpt-Within_example =
    write_gpt-Within esp_type_guid 40960 (esp ∷ []) disk write_gpt-IsTable_example.0
      (omega arith, tt) write_gpt-IsTable_example.1

-- The same on a disk of 2200 sectors, where the partition can grow.
blank : List ℕ
blank = replicate 1126400 0

length-blank : length blank ≡ 1126400
unfolding blank
length-blank = length-replicate {A = ℕ} 1126400 0

abbrev large_disk : Dest
large_disk = record { is_file = false; content = blank }

large-IsWritable : IsWritable 1126400 (esp ∷ []) large_disk
large-IsWritable = record {
  entries_valid = (esp-IsEntry, tt);
  entries_used = (esp_used, tt);
  entries_few = omega arith;
  in_range = ((omega arith, omega arith), tt);
  large = omega arith;
  on_disk = omega (arith, length-blank);
  addressable = omega (arith, length-blank);
}

partitioned : Dest
partitioned = (write_gpt-IsTable esp_type_guid 1126400 (esp ∷ []) large_disk large-IsWritable).0

sector : List ℕ
sector = (read_gpt-write_gpt esp_type_guid 1126400 (esp ∷ []) large_disk large-IsWritable).0

abbrev table : Gpt
table = record {
  header = header_read 1 2199 2 2199 sector;
  entries = numbered 0 (esp ∷ []);
  entries_raw = slots (esp ∷ []);
}

finds : read_gpt partitioned ≡ ok (some table)
unfolding partitioned sector
finds =
    ap (λ (r : Result Dest). bind r read_gpt)
      (sym (write_gpt-IsTable esp_type_guid 1126400 (esp ∷ []) large_disk large-IsWritable).1)
    ∙ (read_gpt-write_gpt esp_type_guid 1126400 (esp ∷ []) large_disk large-IsWritable).1

can_grow : CanGrow 1126400 partitioned table esp
unfolding partitioned
can_grow = record {
  read = finds;
  trailing = record { before = []; after = []; parts = refl; earlier = tt; later = tt };
  size_fits = omega arith;
  large = omega arith;
  space = omega arith;
  header_small = omega arith;
  array_behind = omega arith;
  addressable = omega (
    arith,
    length-blank,
    (write_gpt-IsTable esp_type_guid 1126400 (esp ∷ []) large_disk large-IsWritable).2,
  );
}

extend_last_partition-grown_table_example :
    (after : Dest) × (sector' : List ℕ) × (entries_raw : List ℕ) × (extend_last_partition 1126400
        partitioned
      ≡ ok (
        after,
        some (record {
          index = 1;
          first_lba = 40;
          new_last_lba = 2166;
          type_guid = esp_type_guid;
          unique_guid = esp.unique_guid;
        }),
      ))
    × (length after.content ≡ length partitioned.content)
    × (read_gpt after ≡ ok (some (grown_table 2166 esp sector' entries_raw table)))
    × (length sector' ≡ 512)
    × AgreeOn beside_checksums sector' table.header.raw_sector
    × ChecksumsHold 92 entries_raw sector'
extend_last_partition-grown_table_example =
    extend_last_partition-grown_table 1126400 partitioned table esp can_grow

can_mirror : CanMirror 1126400 partitioned table
unfolding partitioned
can_mirror = record {
  read = finds;
  large = omega arith;
  on_disk = omega (
    arith,
    length-blank,
    (write_gpt-IsTable esp_type_guid 1126400 (esp ∷ []) large_disk large-IsWritable).2,
  );
  addressable = omega (
    arith,
    length-blank,
    (write_gpt-IsTable esp_type_guid 1126400 (esp ∷ []) large_disk large-IsWritable).2,
  );
  header_small = omega arith;
  array_behind = omega arith;
  array_small = omega arith;
  array_before = omega arith;
}

fixup_backup_gpt-mirrors_example :
    (after : Dest) × (sector' : List ℕ) × (copy : List ℕ) × (fixup_backup_gpt 1126400 partitioned
      ≡ ok after)
    × (read_gpt after
        ≡ ok (
            some (record {
              header = primary_header 2199 sector' (table.header);
              entries = table.entries;
              entries_raw = table.entries_raw;
            })))
    × AgreeOn beside_primary sector' table.header.raw_sector
    × ChecksumsHold 92 table.entries_raw sector'
    × (slice (2199 * 512) 512 after.content ≡ copy)
    × (header_of copy ≡ backup_header 2199 copy (table.header))
    × AgreeOn beside_backup copy table.header.raw_sector
    × ChecksumsHold 92 table.entries_raw copy
    × (slice (2167 * 512) (128 * 128) after.content ≡ table.entries_raw)
fixup_backup_gpt-mirrors_example = fixup_backup_gpt-mirrors 1126400 partitioned table can_mirror

post_write_hooks-grow_example :
    (after : Dest) × IsExtended 1126400 table esp after
    × (post_write_hooks (λ e disk'. disk') 1126400 partitioned
        ≡ bind (boot_entry (find_esp after)) λ entry. ok (after, entry))
post_write_hooks-grow_example =
    post_write_hooks-grow (λ e disk'. disk') 1126400 partitioned table esp can_grow can_mirror
