-- ===== src/Convert/Stored.antt =====
-- What a block has in the file once the conversion has taken it: a cluster that decodes to it.
use goldboot.Base.{
  ℕ, ◌<◌, ◌≡◌, refl, sym, ap, ◌∙◌, List, ◌++◌, append_assoc, Option, none, some, length,
  length-append, get_elem?, drop-append, arith, ok, bind-eq-ok, Option-cases, inl, inr, be_bytes,
  length-be_bytes,
}
use goldboot.Crates.{Crates, AreLawful}
use goldboot.Format.{ProtectedHeader, Cluster, ClusterEncryptionType, ClusterCompressionType}
use goldboot.Format.Write.{write_cluster}
use goldboot.Format.Valid.{IsCluster}
use goldboot.Format.RoundTrip.{read_cluster-Reads}
use goldboot.Apply.{OrdinalMap, ordinal, or_insert}
use goldboot.Apply.Order.{or_insert-keeps}
use goldboot.Apply.{nonce_of, decrypt_cluster, decompress_cluster, decode_cluster}
use goldboot.Apply.{fetch_block}
use goldboot.Apply.Restores.{Block}
use goldboot.Convert.{compress, encrypt_cluster, compressed, encrypted, nonce_at}

-- Each nonce of the first table stands at the same index in the second.
abbrev pub Extends : List (List ℕ) → List (List ℕ) → Type 0
Extends nonces all = (i : ℕ) (n : List ℕ) → get_elem? nonces i ≡ some n → get_elem? all i ≡ some n

compressed-ok : (o : Option (List ℕ)) (bytes : List ℕ) → compressed o ≡ ok bytes → o ≡ some bytes
compressed-ok none bytes h = cc
compressed-ok (some x) bytes h = cc

encrypted-ok : (o : Option (List ℕ)) (bytes : List ℕ) → encrypted o ≡ ok bytes → o ≡ some bytes
encrypted-ok none bytes h = cc
encrypted-ok (some x) bytes h = cc

nonce_at-ok :
    (nonces : List (List ℕ)) (i : ℕ) (n : List ℕ)
    → nonce_at nonces i ≡ ok n
    → get_elem? nonces i ≡ some n
nonce_at-ok nonces i n h = elim (Option-cases (get_elem? nonces i)) [
  | inl q ↦ cc (rw (q, nonce_at) at h)
  | inr (m, q) ↦ cc (rw (q, nonce_at) at h)
]

decompress-compress :
    (c : Crates) (kind : ClusterCompressionType) (plain packed : List ℕ)
    → AreLawful c
    → compress c kind plain ≡ ok packed
    → decompress_cluster c kind packed ≡ ok plain
unfolding compress decompress_cluster
decompress-compress c ClusterCompressionType.none plain packed lawful h = sym h
decompress-compress c ClusterCompressionType.zstd plain packed lawful h =
    rw (lawful.decode-encode plain packed (compressed-ok (c.zstd_encode plain) packed h))

decrypt-encrypt :
    (c : Crates) (p : ProtectedHeader) (kind : ClusterEncryptionType) (nonces : List (List ℕ))
    (i : ℕ) (packed sealed : List ℕ)
    → AreLawful c
    → Extends nonces p.nonce_table
    → encrypt_cluster c kind p.cluster_key nonces i packed ≡ ok sealed
    → decrypt_cluster c kind p (some i) sealed ≡ ok packed
unfolding encrypt_cluster decrypt_cluster
decrypt-encrypt c p ClusterEncryptionType.none nonces i packed sealed lawful ext h = sym h
decrypt-encrypt c p ClusterEncryptionType.aes256 nonces i packed sealed lawful ext h =
    let (nonce, at, made) =
      bind-eq-ok (nonce_at nonces i) (λ n. encrypted (c.encrypt p.cluster_key n packed)) h in
    rw
      (
        decrypt_cluster,
        nonce_of,
        ext i nonce (nonce_at-ok nonces i nonce at),
        lawful.decrypt-encrypt p.cluster_key nonce packed sealed
            (encrypted-ok (c.encrypt p.cluster_key nonce packed) sealed made),
      )
      refl

-- A cluster that was compressed and encrypted decodes to the block, under a nonce table that keeps
-- the nonce.
pub decode-seal :
    (c : Crates) (p : ProtectedHeader) (nonces : List (List ℕ)) (i : ℕ)
    (plain packed sealed : List ℕ)
    → AreLawful c
    → Extends nonces p.nonce_table
    → compress c p.cluster_compression plain ≡ ok packed
    → encrypt_cluster c p.cluster_encryption p.cluster_key nonces i packed ≡ ok sealed
    → decode_cluster c p (some i) sealed ≡ ok plain
unfolding decode_cluster
decode-seal c p nonces i plain packed sealed lawful ext hc he =
    rw (decrypt-encrypt c p p.cluster_encryption nonces i packed sealed lawful ext he)
      (decompress-compress c p.cluster_compression plain packed lawful hc)

-- The block has a cluster in the file, under an ordinal of the map, that decodes to it.
pub record InFile (c : Crates) (p : ProtectedHeader) (m : OrdinalMap) (file : List ℕ) (b : Block)
    : Type 0 where
  pub front : List ℕ
  pub cluster : Cluster
  pub back : List ℕ
  pub index : ℕ
  pub laid : file ≡ front ++ (write_cluster cluster ++ back)
  pub placed : b.0.cluster_offset ≡ length front
  pub valid : IsCluster cluster
  pub numbered : ordinal b.0.cluster_offset m ≡ some index
  pub decoded : decode_cluster c p (some index) cluster.bytes ≡ ok b.1
  pub hashed : c.sha256 b.1 ≡ b.0.digest

module _ (c : Crates) (p : ProtectedHeader) (m : OrdinalMap) (file : List ℕ) (b : Block) where
  -- Such a block is what `write` fetches for the entry.
  pub InFile→fetched : InFile c p m file b → fetch_block c p m file b.0 ≡ ok b.1
  unfolding fetch_block
  InFile→fetched s =
      rw
        (
          s.numbered,
          s.placed,
          s.laid,
          drop-append s.front (write_cluster s.cluster ++ s.back),
          (read_cluster-Reads s.cluster s.valid).apply s.back,
        )
        s.decoded

  -- The cluster begins before the end of the file.
  pub InFile→within : InFile c p m file b → b.0.cluster_offset < length file
  unfolding write_cluster
  InFile→within s = omega (
    arith,
    s.placed,
    ap length s.laid,
    length-append s.front (write_cluster s.cluster ++ s.back),
    length-append (write_cluster s.cluster) s.back,
    length-append (be_bytes 4 s.cluster.size) s.cluster.bytes,
    length-be_bytes 4 s.cluster.size,
  )

  -- It stays there when the file and the map grow.
  pub InFile-grow :
      (more : List ℕ) (o : ℕ)
      → InFile c p m file b
      → InFile c p (or_insert o (length m) m) (file ++ more) b
  InFile-grow more o s = record {
    front = s.front;
    cluster = s.cluster;
    back = s.back ++ more;
    index = s.index;
    laid =
        ap (λ (f : List ℕ). f ++ more) s.laid
        ∙ append_assoc s.front (write_cluster s.cluster ++ s.back) more
        ∙ ap (λ (f : List ℕ). s.front ++ f) (append_assoc (write_cluster s.cluster) s.back more);
    placed = s.placed;
    valid = s.valid;
    numbered = or_insert-keeps b.0.cluster_offset o s.index m s.numbered;
    decoded = s.decoded;
    hashed = s.hashed;
  }
