-- ===== src/Qcow/Snapshot.antt =====
-- goldboot-image/src/qcow/snapshot.rs.
mod Utf8
unfoldable pub use Utf8.{is_utf8}
use goldboot.Base.{
  ℕ, zero, suc, ◌+◌, ◌-◌, ◌*◌, ◌/◌, ◌%◌, ◌^◌, List, [], ◌∷◌, ◌++◌, Option, none, some, drop, ok,
  if◌then◌else◌, leb, length, Reader, pure, require, ◌>>=◌, ◌>>◌, read_exact, read_be, read_count,
  bad_utf8,
}
use goldboot.Qcow.Levels.{L1Entry, L2Entry, read_l2, is_allocated, value_of}

-- `instruction_count` is the bit pattern of the i64.
pub record SnapshotExtraData : Type 0 where
  pub vm_state_size : ℕ
  pub virtual_disk_size : Option ℕ
  pub instruction_count : Option ℕ

pub record SnapshotTime : Type 0 where
  pub secs : ℕ
  pub nanosecs : ℕ

pub record Snapshot : Type 0 where
  pub l1_table_offset : ℕ
  pub l1_entry_count : ℕ
  pub time : SnapshotTime
  pub guest_runtime : ℕ
  pub vm_state_size : ℕ
  pub extra_data : SnapshotExtraData
  pub unique_id : List ℕ
  pub name : List ℕ

-- A field under `if(...)`: its default when the test fails.
unfoldable pub read_u64_or : ℕ → ℕ → Reader ℕ
read_u64_or least size = if leb least size then read_be 8 else pure 0

unfoldable pub read_u64_option : ℕ → ℕ → Reader (Option ℕ)
read_u64_option least size = if leb least size then (do v ← read_be 8; pure (some v)) else pure none

unfoldable pub read_extra_data : ℕ → Reader SnapshotExtraData
unfolding read_u64_or read_u64_option
read_extra_data size = do
  vm_state_size ← read_u64_or 8 size
  virtual_disk_size ← read_u64_option 16 size
  instruction_count ← read_u64_option 24 size
  pure (record {
    vm_state_size = vm_state_size;
    virtual_disk_size = virtual_disk_size;
    instruction_count = instruction_count;
  })

-- The bytes that `SnapshotExtraData` takes, which `pad_size_to` fills up to `extra_data_size`.
unfoldable pub extra_data_taken : ℕ → ℕ
extra_data_taken size =
    (if leb 8 size then 8 else 0) + (if leb 16 size then 8 else 0) + (if leb 24 size then 8 else 0)

-- `pad_size_to` seeks past the bytes, which need not be there.
unfoldable pub skip : ℕ → Reader (Unit {0})
skip n bs = ok (tt, drop n bs)

-- The padding to an 8-byte boundary.
unfoldable pub padding_len : ℕ → ℕ → ℕ → ℕ
padding_len extra_data_size unique_id_len name_len =
    (8 - (40 + extra_data_size + unique_id_len + name_len) % 8) % 8

unfoldable pub read_snapshot : Reader Snapshot
unfolding read_extra_data extra_data_taken skip padding_len
read_snapshot = do
  l1_table_offset ← read_be 8
  l1_entry_count ← read_be 4
  unique_id_len ← read_be 2
  name_len ← read_be 2
  secs ← read_be 4
  nanosecs ← read_be 4
  guest_runtime ← read_be 8
  vm_state_size ← read_be 4
  extra_data_size ← read_be 4
  extra_data ← read_extra_data extra_data_size
  skip (extra_data_size - extra_data_taken extra_data_size)
  unique_id ← read_exact unique_id_len
  require (is_utf8 unique_id) bad_utf8
  name ← read_exact name_len
  require (is_utf8 name) bad_utf8
  padding ← read_exact (padding_len extra_data_size unique_id_len name_len)
  pure (record {
    l1_table_offset = l1_table_offset;
    l1_entry_count = l1_entry_count;
    time = record { secs = secs; nanosecs = nanosecs };
    guest_runtime = guest_runtime;
    vm_state_size = vm_state_size;
    extra_data = extra_data;
    unique_id = unique_id;
    name = name;
  })

-- `Snapshot::read_l1`.
unfoldable pub read_l1 : List ℕ → Snapshot → Option (List L1Entry)
read_l1 file s = value_of (read_count s.l1_entry_count (read_be 8) (drop s.l1_table_offset file))

-- The allocated entries of one L2 table.
unfoldable pub count_allocated : List L2Entry → ℕ
count_allocated [] = 0
count_allocated (e ∷ es) = (if is_allocated e then 1 else 0) + count_allocated es

abbrev pub count_l2 : Option (List L2Entry) → ℕ
count_l2 none = 0
count_l2 (some es) = count_allocated es

-- The loop that `Qcow3::count_clusters` and `Snapshot::count_clusters` share.
unfoldable pub count_table : List ℕ → ℕ → List L1Entry → ℕ
unfolding count_allocated
count_table file cluster_bits [] = 0
count_table file cluster_bits (x ∷ xs) =
    count_l2 (read_l2 file cluster_bits x) + count_table file cluster_bits xs

unfoldable pub snapshot_count_clusters : List ℕ → ℕ → Snapshot → ℕ
unfolding count_table
snapshot_count_clusters file cluster_bits s = elim (read_l1 file s) [
  | none ↦ 0
  | some l1_table ↦ count_table file cluster_bits l1_table
]

-- The inner loop of `read_clusters`: `index` counts the clusters of the whole disk.
unfoldable pub clusters_of_l2 : ℕ → ℕ → List L2Entry → List (ℕ × L2Entry)
clusters_of_l2 size index [] = []
clusters_of_l2 size index (e ∷ es) =
    let rest = clusters_of_l2 size (index + 1) es in
    if is_allocated e then (index * size, e) ∷ rest else rest

abbrev pub clusters_of_entry : ℕ → ℕ → Option (List L2Entry) → List (ℕ × L2Entry)
clusters_of_entry size index none = []
clusters_of_entry size index (some es) = clusters_of_l2 size index es

-- The outer loop, from the L1 index on.
unfoldable pub clusters_of_l1 : List ℕ → ℕ → ℕ → List L1Entry → List (ℕ × L2Entry)
unfolding clusters_of_l2
clusters_of_l1 file cluster_bits l1_index [] = []
clusters_of_l1 file cluster_bits l1_index (x ∷ xs) =
    clusters_of_entry (2 ^ cluster_bits) (l1_index * (2 ^ cluster_bits / 8))
      (read_l2 file cluster_bits x)
    ++ clusters_of_l1 file cluster_bits (l1_index + 1) xs

unfoldable pub read_clusters : List ℕ → ℕ → Snapshot → List (ℕ × L2Entry)
unfolding clusters_of_l1
read_clusters file cluster_bits s = elim (read_l1 file s) [
  | none ↦ []
  | some l1_table ↦ clusters_of_l1 file cluster_bits 0 l1_table
]
