-- ===== src/Convert/Extent.antt =====
-- The blocks of a disk lie a cluster apart, in order, within the disk, and are as many as
-- `count_clusters` says.
use goldboot.Base.{
  ℕ, suc, ◌+◌, ◌-◌, ◌*◌, ◌≤◌, ◌≡◌, refl, ap, subst, List, [], ◌∷◌, ◌++◌, Option, none, some, length,
  length-take, take, map, arith, ltb, Result, ok, bind, bind-eq-ok, Bool-cases, inl, inr,
}
use goldboot.Crates.{Crates, AreLawful}
use goldboot.Apply.Restores.{Block, Fits}
use goldboot.Qcow.{
  Qcow3, L1Entry, L2Entry, cluster_size, l2_entries_per_cluster, read_l2, read_contents,
}
use goldboot.Qcow.Allocation.{length-read_l2, length-read_contents}
use goldboot.Convert.{truncate_block}
use goldboot.Convert.Runs.{item_of, ok_eq}
use goldboot.Convert.Blocks.{DiskBlock, block_of, blocks_l2, blocks_of_table, blocks_l1}

-- Blocks at least a cluster apart from `from` on, that end within the disk; the next may be at `to`.
abbrev pub Between : ℕ → ℕ → ℕ → ℕ → List DiskBlock → Type 0
Between block_size size from to [] = from ≤ to
Between block_size size from to ((off, x) ∷ rest) =
    (from ≤ off)
    × (length x ≤ block_size)
    × (off + length x ≤ size)
    × Between block_size size (off + block_size) to rest

Between-append :
    (block_size size from mid to : ℕ) (xs ys : List DiskBlock)
    → Between block_size size from mid xs
    → Between block_size size mid to ys
    → Between block_size size from to (xs ++ ys)
Between-append block_size size from mid to [] [] h k = omega arith
Between-append block_size size from mid to [] ((off, y) ∷ ys) h k =
    (omega (arith, k.0), k.1, k.2, k.3)
Between-append block_size size from mid to ((off, x) ∷ xs) ys h k =
    (h.0, h.1, h.2, Between-append block_size size (off + block_size) mid to xs ys h.3 k)

-- The blocks of the image's entries then fit the disk.
pub Between→Fits :
    (block_size size from to : ℕ) (bs : List Block)
    → Between block_size size from to (map item_of bs)
    → Fits block_size size from bs
Between→Fits block_size size from to [] h = tt
Between→Fits block_size size from to ((e, x) ∷ bs) h =
    (h.0, h.1, h.2, Between→Fits block_size size (e.block_offset + block_size) to bs h.3)

truncate_block-fits :
    (size block_size off : ℕ) (contents plain : List ℕ)
    → length contents ≤ block_size
    → truncate_block size block_size off contents ≡ ok plain
    → (length plain ≤ block_size) × (off + length plain ≤ size)
unfolding truncate_block
truncate_block-fits size block_size off contents plain short h =
    elim (Bool-cases (ltb size (off + block_size))) [
      | inl q ↦ elim (Bool-cases (ltb size off)) [
        | inl q' ↦ cc (rw (q, q') at h)
        | inr q' ↦
            let cut : take (size - off) contents ≡ plain = ok_eq (rw (q, q') at h) in
            let long = length-take (size - off) contents in
            let same = ap length cut in (omega arith, ground arith)
      ]
      | inr q ↦
          let whole : contents ≡ plain = ok_eq (rw q at h) in
          let same = ap length whole in (omega arith, ground arith)
    ]

module _ (c : Crates) (source : List ℕ) (q : Qcow3) where
  block_of-Between :
      (lawful : AreLawful c) (off to : ℕ) (e : L2Entry) (contents : Option (List ℕ))
      (later : Result (List DiskBlock)) (items : List DiskBlock)
      → read_contents c source (cluster_size q.header) q.header.compression_type e ≡ ok contents
      → ((rest : List DiskBlock)
          → later ≡ ok rest
          → Between (cluster_size q.header) q.header.size (off + cluster_size q.header) to rest)
      → block_of q.header.size (cluster_size q.header) off contents later ≡ ok items
      → Between (cluster_size q.header) q.header.size off to items
  block_of-Between lawful off to e none later items read go h =
      Between-append (cluster_size q.header) q.header.size off (off + cluster_size q.header) to []
        items (omega arith) (go items h)
  block_of-Between lawful off to e (some contents) later items read go h =
      let (plain, cut, h') =
        bind-eq-ok (truncate_block q.header.size (cluster_size q.header) off contents)
          (λ x. bind later λ xs. ok ((off, x) ∷ xs)) h in
      let (xs, tail, made) = bind-eq-ok later (λ xs. ok ((off, plain) ∷ xs)) h' in
      let (short, ends) =
        truncate_block-fits q.header.size (cluster_size q.header) off contents plain
          (length-read_contents c source (cluster_size q.header) q.header.compression_type e
            contents lawful read)
          cut in
      subst (Between (cluster_size q.header) q.header.size off to) (ok_eq made)
        (omega arith, short, ends, go xs tail)

  blocks_l2-Between :
      (lawful : AreLawful c) (es : List L2Entry) (off : ℕ) (items : List DiskBlock)
      → blocks_l2 c source q off es ≡ ok items
      → Between
          (cluster_size q.header)
          q.header.size
          off
          (off + cluster_size q.header * length es)
          items
  unfolding blocks_l2
  blocks_l2-Between lawful [] off items h =
      subst (Between (cluster_size q.header) q.header.size off (off + cluster_size q.header * 0))
        (ok_eq h) (ground arith)
  blocks_l2-Between lawful (e ∷ es) off items h =
      let cs = cluster_size q.header in
      let later = blocks_l2 c source q (off + cs) es in
      let (contents, read, h') =
        bind-eq-ok (read_contents c source cs q.header.compression_type e)
          (λ contents. block_of q.header.size cs off contents later) h in
      let far : off + cs + cs * length es ≡ off + cs * suc (length es) = ground arith in
      block_of-Between lawful off (off + cs * suc (length es)) e contents later items read
        (λ rest k.
          subst (λ to. Between cs q.header.size (off + cs) to rest) far
            (blocks_l2-Between lawful es (off + cs) rest k))
        h'

  blocks_of_table-Between :
      (lawful : AreLawful c) (x : L1Entry) (table : Option (List L2Entry)) (off : ℕ)
      (items : List DiskBlock)
      → read_l2 source q.header.cluster_bits x ≡ table
      → blocks_of_table c source q off table ≡ ok items
      → Between
          (cluster_size q.header)
          q.header.size
          off
          (off + cluster_size q.header * l2_entries_per_cluster q.header)
          items
  blocks_of_table-Between lawful x none off items read h =
      let span = cluster_size q.header * l2_entries_per_cluster q.header in
      subst (Between (cluster_size q.header) q.header.size off (off + span)) (ok_eq h) (omega arith)
  blocks_of_table-Between lawful x (some es) off items read h =
      let cs = cluster_size q.header in
      subst (λ n. Between cs q.header.size off (off + cs * n) items)
        (length-read_l2 q.header source x es read) (blocks_l2-Between lawful es off items h)

  pub blocks_l1-Between :
      (lawful : AreLawful c) (xs : List L1Entry) (off : ℕ) (items : List DiskBlock)
      → blocks_l1 c source q off xs ≡ ok items
      → Between
          (cluster_size q.header)
          q.header.size
          off
          (off + cluster_size q.header * l2_entries_per_cluster q.header * length xs)
          items
  unfolding blocks_l1
  blocks_l1-Between lawful [] off items h =
      let span = cluster_size q.header * l2_entries_per_cluster q.header in
      subst (Between (cluster_size q.header) q.header.size off (off + span * 0)) (ok_eq h)
        (ground arith)
  blocks_l1-Between lawful (x ∷ xs) off items h =
      let cs = cluster_size q.header in
      let span = cs * l2_entries_per_cluster q.header in
      let table = read_l2 source q.header.cluster_bits x in
      let later = blocks_l1 c source q (off + span) xs in
      let (here, first, h') =
        bind-eq-ok (blocks_of_table c source q off table) (λ a. bind later λ b. ok (a ++ b)) h in
      let (rest, others, made) = bind-eq-ok later (λ b. ok (here ++ b)) h' in
      let far : off + span + span * length xs ≡ off + span * suc (length xs) = ground arith in
      subst (Between cs q.header.size off (off + span * suc (length xs))) (ok_eq made) (
        Between-append cs q.header.size off (off + span) (off + span * suc (length xs)) here rest
          (blocks_of_table-Between lawful x table off here refl first)
          (subst (λ to. Between cs q.header.size (off + span) to rest) far
            (blocks_l1-Between lawful xs (off + span) rest others)))
