-- ===== src/Convert/Blocks.antt =====
-- The blocks of a source disk, read with no image in view: the specification of the conversion's loop.
use goldboot.Base.{ℕ, ◌+◌, ◌*◌, List, [], ◌∷◌, ◌++◌, Option, none, some, Result, ok, bind}
use goldboot.Crates.{Crates}
use goldboot.Convert.{truncate_block}
use goldboot.Qcow.{
  Qcow3, L1Entry, L2Entry, cluster_size, l2_entries_per_cluster, read_l2, read_contents,
}

-- Where a block lies on the disk, and its bytes.
abbrev pub DiskBlock : Type 0
DiskBlock = ℕ × List ℕ

abbrev pub with_block : ℕ → Result (List ℕ) → Result (List DiskBlock) → Result (List DiskBlock)
with_block off plain rest = bind plain λ x. bind rest λ xs. ok ((off, x) ∷ xs)

abbrev pub block_of :
    ℕ → ℕ → ℕ → Option (List ℕ) → Result (List DiskBlock) → Result (List DiskBlock)
block_of size block_size off none rest = rest
block_of size block_size off (some contents) rest =
    with_block off (truncate_block size block_size off contents) rest

-- The allocated clusters under one L2 table, from an offset of the disk on.
unfoldable pub blocks_l2 : Crates → List ℕ → Qcow3 → ℕ → List L2Entry → Result (List DiskBlock)
blocks_l2 c source q off [] = ok []
blocks_l2 c source q off (e ∷ es) =
    bind (read_contents c source (cluster_size q.header) q.header.compression_type e) λ contents.
      block_of q.header.size (cluster_size q.header) off contents
        (blocks_l2 c source q (off + cluster_size q.header) es)

-- Those under an L1 entry, and under the L1 table: each L1 entry spans as many clusters as an L2 table
-- has entries, whether it has a table or not.
abbrev pub blocks_of_table :
    Crates → List ℕ → Qcow3 → ℕ → Option (List L2Entry) → Result (List DiskBlock)
blocks_of_table c source q off none = ok []
blocks_of_table c source q off (some es) = blocks_l2 c source q off es

unfoldable pub blocks_l1 : Crates → List ℕ → Qcow3 → ℕ → List L1Entry → Result (List DiskBlock)
blocks_l1 c source q off [] = ok []
blocks_l1 c source q off (x ∷ xs) =
    bind (blocks_of_table c source q off (read_l2 source q.header.cluster_bits x)) λ here.
      bind (blocks_l1 c source q (off + cluster_size q.header * l2_entries_per_cluster q.header) xs)
        λ rest. ok (here ++ rest)

-- All the allocated clusters of the disk.
unfoldable pub disk_blocks : Crates → List ℕ → Qcow3 → Result (List DiskBlock)
disk_blocks c source q = blocks_l1 c source q 0 q.l1_table
