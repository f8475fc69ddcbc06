-- ===== src/Convert/Counted.antt =====
-- `count_clusters` against the blocks that are read.
use goldboot.Base.{
  ℕ, ◌+◌, ◌*◌, ◌≡◌, sym, ap, List, [], ◌∷◌, ◌++◌, Option, none, some, length, length-append, arith,
  Result, ok, bind, bind-eq-ok, if◌then◌else◌,
}
use goldboot.Crates.{Crates}
use goldboot.Qcow.{
  Qcow3, L1Entry, L2Entry, cluster_size, l2_entries_per_cluster, read_l2, read_contents, count_l2,
  count_allocated, count_table, count_clusters,
}
use goldboot.Qcow.Allocation.{read_contents-is_allocated, is_some}
use goldboot.Convert.{truncate_block}
use goldboot.Convert.Runs.{ok_eq}
use goldboot.Convert.Blocks.{
  DiskBlock, block_of, blocks_l2, blocks_of_table, blocks_l1, disk_blocks,
}

module _ (c : Crates) (source : List ℕ) (q : Qcow3) where
  length-block_of :
      (off n : ℕ) (contents : Option (List ℕ)) (later : Result (List DiskBlock))
      (items : List DiskBlock)
      → ((rest : List DiskBlock) → later ≡ ok rest → length rest ≡ n)
      → block_of q.header.size (cluster_size q.header) off contents later ≡ ok items
      → length items ≡ (if is_some contents then 1 else 0) + n
  length-block_of off n none later items go h = omega (arith, go items h)
  length-block_of off n (some contents) later items go h =
      let (plain, cut, h') =
        bind-eq-ok (truncate_block q.header.size (cluster_size q.header) off contents)
          (λ x. bind later λ xs. ok ((off, x) ∷ xs)) h in
      let (xs, tail, made) = bind-eq-ok later (λ xs. ok ((off, plain) ∷ xs)) h' in
      let same : (off, plain) ∷ xs ≡ items = ok_eq made in omega (arith, ap length same, go xs tail)

  length-blocks_l2 :
      (es : List L2Entry) (off : ℕ) (items : List DiskBlock)
      → blocks_l2 c source q off es ≡ ok items
      → length items ≡ count_allocated es
  unfolding blocks_l2 count_allocated
  length-blocks_l2 [] off items h = sym (ap length (ok_eq h))
  length-blocks_l2 (e ∷ es) off items h =
      let cs = cluster_size q.header in
      let later = blocks_l2 c source q (off + cs) es in
      let (contents, read, h') =
        bind-eq-ok (read_contents c source cs q.header.compression_type e)
          (λ contents. block_of q.header.size cs off contents later) h in
      rw (read_contents-is_allocated c source cs q.header.compression_type e contents read) (
        length-block_of off (count_allocated es) contents later items
          (length-blocks_l2 es (off + cs)) h')

  length-blocks_of_table :
      (table : Option (List L2Entry)) (off : ℕ) (items : List DiskBlock)
      → blocks_of_table c source q off table ≡ ok items
      → length items ≡ count_l2 table
  length-blocks_of_table none off items h = sym (ap length (ok_eq h))
  length-blocks_of_table (some es) off items h = length-blocks_l2 es off items h

  length-blocks_l1 :
      (xs : List L1Entry) (off : ℕ) (items : List DiskBlock)
      → blocks_l1 c source q off xs ≡ ok items
      → length items ≡ count_table source q.header.cluster_bits xs
  unfolding blocks_l1 count_table
  length-blocks_l1 [] off items h = sym (ap length (ok_eq h))
  length-blocks_l1 (x ∷ xs) off items h =
      let span = cluster_size q.header * l2_entries_per_cluster q.header in
      let table = read_l2 source q.header.cluster_bits x in
      let later = blocks_l1 c source q (off + span) xs in
      let (here, first, h') =
        bind-eq-ok (blocks_of_table c source q off table) (λ a. bind later λ b. ok (a ++ b)) h in
      let (rest, others, made) = bind-eq-ok later (λ b. ok (here ++ b)) h' in
      let same : here ++ rest ≡ items = ok_eq made in
      omega (
        arith,
        ap length same,
        length-append here rest,
        length-blocks_of_table table off here first,
        length-blocks_l1 xs (off + span) rest others,
      )

-- When every cluster of a qcow2 image can be read, `count_clusters` is the number of blocks that it
-- holds.
pub length-disk_blocks :
    (c : Crates) (source : List ℕ) (q : Qcow3) (items : List DiskBlock)
    → disk_blocks c source q ≡ ok items
    → length items ≡ count_clusters source q
unfolding disk_blocks count_clusters
length-disk_blocks c source q items h = length-blocks_l1 c source q q.l1_table 0 items h
