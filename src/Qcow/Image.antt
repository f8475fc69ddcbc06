-- ===== src/Qcow/Image.antt =====
-- goldboot-image/src/qcow/mod.rs: the opened image.
use goldboot.Base.{
  ℕ, List, [], ◌∷◌, Option, none, some, drop, if◌then◌else◌, bytes_eq, Result, ok, err, bind,
  read_count, read_be, be_bytes, write_at, not_found,
}
use mathlib.Core.Option
use goldboot.Qcow.Header.{QcowHeader, read_qcow_header}
use goldboot.Qcow.Levels.{L1Entry}
use goldboot.Qcow.Snapshot.{Snapshot, read_snapshot, count_table}

-- `path` is the file that the functions below take.
pub record Qcow3 : Type 0 where
  pub header : QcowHeader
  pub snapshots : List Snapshot
  pub l1_table : List L1Entry

-- `Qcow3::open`.
unfoldable pub qcow_open : List ℕ → Result Qcow3
qcow_open file = bind (read_qcow_header file) λ (header, _).
    bind (read_count header.nb_snapshots read_snapshot (drop header.snapshots_offset file))
      λ (snapshots, _).
        bind (read_count header.l1_size (read_be 8) (drop header.l1_table_offset file))
          λ (l1_table, _).
            ok (record { header = header; snapshots = snapshots; l1_table = l1_table })

-- `Qcow3::count_clusters`.
unfoldable pub count_clusters : List ℕ → Qcow3 → ℕ
unfolding count_table
count_clusters file q = count_table file q.header.cluster_bits q.l1_table

-- The first snapshot with the name, or with the ID.
unfoldable pub snapshot_by_name : List ℕ → List Snapshot → Option Snapshot
snapshot_by_name name [] = none
snapshot_by_name name (s ∷ ss) = if bytes_eq s.name name then some s else snapshot_by_name name ss

unfoldable pub snapshot_by_id : List ℕ → List Snapshot → Option Snapshot
snapshot_by_id id [] = none
snapshot_by_id id (s ∷ ss) = if bytes_eq s.unique_id id then some s else snapshot_by_id id ss

-- `Qcow3::revert`: the new contents of the file.
unfoldable pub revert : List ℕ → List ℕ → Qcow3 → Result (List ℕ)
revert name file q = elim (snapshot_by_name name q.snapshots) [
  | none ↦ err not_found
  | some s ↦
      let new_size = Option.get_or s.extra_data.virtual_disk_size q.header.size in
      ok (
        write_at 40 (be_bytes 8 s.l1_table_offset)
          (write_at 36 (be_bytes 4 s.l1_entry_count) (write_at 24 (be_bytes 8 new_size) file)))
]
