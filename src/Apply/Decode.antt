-- ===== src/Apply/Decode.antt =====
-- Undoing what the conversion did to a cluster: decryption under the nonce of its ordinal, then
-- decompression. `write` and `stream_write` do the same steps.
use goldboot.Base.{
  ℕ, List, Option, none, some, get_elem?, Result, ok, err, bind, panicked, decryption_failed,
  decompression_failed,
}
use goldboot.Crates.{Crates}
use goldboot.Format.{ProtectedHeader, ClusterEncryptionType, ClusterCompressionType}

abbrev pub decrypted : Option (List ℕ) → Result (List ℕ)
decrypted none = err decryption_failed
decrypted (some plain) = ok plain

abbrev pub decompressed : Option (List ℕ) → Result (List ℕ)
decompressed none = err decompression_failed
decompressed (some plain) = ok plain

-- `nonce_table[i]` panics out of bounds. The lookup of the ordinal cannot miss; `write` makes it an
-- error and `stream_write` a panic.
abbrev pub nonce_of : List (List ℕ) → Option ℕ → Result (List ℕ)
nonce_of nonces none = err panicked
nonce_of nonces (some i) = elim (get_elem? nonces i) [ none ↦ err panicked | some n ↦ ok n ]

unfoldable pub decrypt_cluster :
    Crates → ClusterEncryptionType → ProtectedHeader → Option ℕ → List ℕ → Result (List ℕ)
decrypt_cluster c ClusterEncryptionType.none p index bytes = ok bytes
decrypt_cluster c ClusterEncryptionType.aes256 p index bytes =
    bind (nonce_of p.nonce_table index) λ nonce. decrypted (c.decrypt p.cluster_key nonce bytes)

unfoldable pub decompress_cluster : Crates → ClusterCompressionType → List ℕ → Result (List ℕ)
decompress_cluster c ClusterCompressionType.none bytes = ok bytes
decompress_cluster c ClusterCompressionType.zstd bytes = decompressed (c.zstd_decode bytes)

unfoldable pub decode_cluster : Crates → ProtectedHeader → Option ℕ → List ℕ → Result (List ℕ)
decode_cluster c p index bytes =
    bind (decrypt_cluster c p.cluster_encryption p index bytes)
      λ plain. decompress_cluster c p.cluster_compression plain
