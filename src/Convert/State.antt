-- ===== src/Convert/State.antt =====
-- The variables of the conversion, and its steps on one block.
use goldboot.Base.{
  ℕ, ◌+◌, ◌-◌, ◌%◌, ◌^◌, List, [], ◌∷◌, ◌++◌, Option, none, some, length, take, get_elem?, be_bytes,
  ltb, bytes_eq, if◌then◌else◌, Result, ok, err, bind, panicked, encryption_failed,
  decompression_failed,
}
use goldboot.Crates.{Crates}
use goldboot.Format.{DigestTableEntry, ClusterEncryptionType, ClusterCompressionType}
use goldboot.Format.Write.{write_cluster}

-- What the conversion draws from the random generator, and the time of day.
pub record Draws : Type 0 where
  pub protected_nonce : List ℕ
  pub digest_table_nonce : List ℕ
  pub directory_nonce : List ℕ
  pub cluster_key : List ℕ
  pub nonces : ℕ → List (List ℕ)
  pub timestamp : ℕ

-- The variables of the loop. `file` is what was written so far, `hashed` what the content hasher has
-- taken, `ordinal` is `i`.
pub record Conversion : Type 0 where
  pub entries : List DigestTableEntry
  pub block_offset : ℕ
  pub ordinal : ℕ
  pub cluster_offset : ℕ
  pub cluster_count : ℕ
  pub nonce_table : List (List ℕ)
  pub file : List ℕ
  pub hashed : List ℕ

-- The cluster of the first entry with the digest.
unfoldable pub find_digest : List ℕ → List DigestTableEntry → Option ℕ
find_digest digest [] = none
find_digest digest (e ∷ es) =
    if bytes_eq e.digest digest then some e.cluster_offset else find_digest digest es

abbrev pub encrypted : Option (List ℕ) → Result (List ℕ)
encrypted none = err encryption_failed
encrypted (some sealed) = ok sealed

abbrev pub compressed : Option (List ℕ) → Result (List ℕ)
compressed none = err decompression_failed
compressed (some packed) = ok packed

unfoldable pub compress : Crates → ClusterCompressionType → List ℕ → Result (List ℕ)
compress c ClusterCompressionType.none bytes = ok bytes
compress c ClusterCompressionType.zstd bytes = compressed (c.zstd_encode bytes)

-- `nonce_table[i]` panics out of bounds.
abbrev pub nonce_at : List (List ℕ) → ℕ → Result (List ℕ)
nonce_at nonces i = elim (get_elem? nonces i) [ none ↦ err panicked | some n ↦ ok n ]

unfoldable pub encrypt_cluster :
    Crates → ClusterEncryptionType → List ℕ → List (List ℕ) → ℕ → List ℕ → Result (List ℕ)
encrypt_cluster c ClusterEncryptionType.none key nonces i bytes = ok bytes
encrypt_cluster c ClusterEncryptionType.aes256 key nonces i bytes =
    bind (nonce_at nonces i) λ nonce. encrypted (c.encrypt key nonce bytes)

-- `Vec::pop`.
unfoldable pub pop {ℓ} : {A : Type ℓ} → List A → List A
pop [] = []
pop (x ∷ []) = []
pop (x ∷ y ∷ ys) = x ∷ pop (y ∷ ys)

-- The contents of the block, cut off at the end of the disk; `size - block_offset` must not wrap.
unfoldable pub truncate_block : ℕ → ℕ → ℕ → List ℕ → Result (List ℕ)
truncate_block size block_size block_offset contents =
    if ltb size (block_offset + block_size)
    then (if ltb size block_offset then err panicked else ok (take (size - block_offset) contents))
    else ok contents

-- The entry of a new cluster is pushed, the cluster is written and hashed, and the variables advance.
unfoldable pub record_cluster : Conversion → List ℕ → List ℕ → Conversion
record_cluster s digest sealed =
    let size = length sealed % 2 ^ 32 in
    record s {
      entries =
          s.entries
          ++ record {
            cluster_offset = s.cluster_offset;
            block_offset = s.block_offset;
            digest = digest;
          }
            ∷ [];
      file = s.file ++ write_cluster (record { size = size; bytes = sealed });
      hashed = s.hashed ++ (be_bytes 4 size ++ sealed);
      cluster_offset = s.cluster_offset + 4 + size;
      ordinal = s.ordinal + 1;
    }

-- The entry of a shared cluster is pushed; a nonce and a count are given back.
unfoldable pub record_share : Conversion → List ℕ → ℕ → Conversion
record_share s digest offset = record s {
  entries =
      s.entries
      ++ record { cluster_offset = offset; block_offset = s.block_offset; digest = digest } ∷ [];
  cluster_count = s.cluster_count - 1;
  nonce_table = pop s.nonce_table;
}

unfoldable pub advance : ℕ → Conversion → Conversion
advance n s = record s { block_offset = s.block_offset + n }
