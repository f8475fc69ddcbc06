-- ===== src/Convert/Loop.antt =====
-- The loop over the L1 and L2 tables of the source.
use goldboot.Base.{
  ℕ, ◌*◌, List, [], ◌∷◌, Option, none, some, ◌==◌, if◌then◌else◌, Result, ok, err, bind, panicked,
}
use goldboot.Crates.{Crates}
use goldboot.Format.{ClusterEncryptionType, ClusterCompressionType}
use goldboot.Qcow.{
  Qcow3, L1Entry, L2Entry, cluster_size, l2_entries_per_cluster, read_l2, read_contents,
}
use goldboot.Convert.State.{
  Conversion, find_digest, compress, encrypt_cluster, truncate_block, record_cluster, record_share,
  advance,
}

module _ (c : Crates) (compression : ClusterCompressionType) (encryption : ClusterEncryptionType)
    (key : List ℕ) where
  -- A new cluster is compressed and encrypted under the nonce of its ordinal.
  unfoldable pub store_cluster : Conversion → List ℕ → List ℕ → Result Conversion
  store_cluster s digest plain = bind (compress c compression plain) λ packed.
      bind (encrypt_cluster c encryption key s.nonce_table s.ordinal packed)
        λ sealed. ok (record_cluster s digest sealed)

  -- A block whose digest is known shares the cluster; `cluster_count` must not wrap.
  unfoldable pub share_cluster : Conversion → List ℕ → ℕ → Result Conversion
  share_cluster s digest offset =
      if s.cluster_count == 0 then err panicked else ok (record_share s digest offset)

  -- A block that was cut to the disk: its digest decides.
  unfoldable pub convert_plain : List ℕ → Conversion → Result Conversion
  convert_plain plain s = elim (find_digest (c.sha256 plain) s.entries) [
    | none ↦ store_cluster s (c.sha256 plain) plain
    | some offset ↦ share_cluster s (c.sha256 plain) offset
  ]

  unfoldable pub convert_block : ℕ → ℕ → List ℕ → Conversion → Result Conversion
  convert_block size block_size contents s =
      bind (truncate_block size block_size s.block_offset contents) λ plain. convert_plain plain s

  -- An entry with no contents leaves the state; the offset advances in either case.
  unfoldable pub convert_contents : ℕ → ℕ → Option (List ℕ) → Conversion → Result Conversion
  convert_contents size block_size none s = ok s
  convert_contents size block_size (some contents) s = convert_block size block_size contents s

  unfoldable pub convert_l2 : List ℕ → Qcow3 → List L2Entry → Conversion → Result Conversion
  convert_l2 source q [] s = ok s
  convert_l2 source q (e ∷ es) s =
      bind (read_contents c source (cluster_size q.header) q.header.compression_type e) λ contents.
        bind (convert_contents q.header.size (cluster_size q.header) contents s)
          λ t. convert_l2 source q es (advance (cluster_size q.header) t)

  -- Under an L1 entry: its L2 table, or the span of one that is not there.
  unfoldable pub convert_table :
      List ℕ → Qcow3 → Option (List L2Entry) → Conversion → Result Conversion
  convert_table source q (some l2_table) s = convert_l2 source q l2_table s
  convert_table source q none s =
      ok (advance (cluster_size q.header * l2_entries_per_cluster q.header) s)

  unfoldable pub convert_l1 : List ℕ → Qcow3 → List L1Entry → Conversion → Result Conversion
  convert_l1 source q [] s = ok s
  convert_l1 source q (x ∷ xs) s =
      bind (convert_table source q (read_l2 source q.header.cluster_bits x) s)
        λ t. convert_l1 source q xs t
