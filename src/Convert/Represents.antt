-- ===== src/Convert/Represents.antt =====
-- The state of the loop against the blocks it has taken.
use goldboot.Base.{
  drop, ℕ, ◌+◌, ◌^◌, ◌≤◌, ◌<◌, ◌≡◌, refl, ap, List, [], ◌∷◌, ◌++◌, some, length, map, All, ok,
  bytes_eq, bytes_eq→eq, Bool-cases, inl, inr,
}
use goldboot.Crates.{Crates}
use goldboot.Format.{ProtectedHeader, DigestTableEntry, ClusterEncryptionType}
use goldboot.Apply.{OrdinalMap, or_insert, build_cluster_ordinal_map}
use goldboot.Apply.Order.{ordinals_from-snoc}
use goldboot.Apply.Restores.{Block, entry_of}
use goldboot.Convert.{Conversion, find_digest, compress, encrypt_cluster}
use goldboot.Convert.Stored.{Extends, InFile, InFile→within, InFile-grow}

-- The nonce of a cluster is there, if it takes one.
abbrev pub HasNonce : ClusterEncryptionType → List (List ℕ) → ℕ → Type 0
HasNonce ClusterEncryptionType.none nonces i = Unit
HasNonce ClusterEncryptionType.aes256 nonces i = i < length nonces

abbrev pub CountsNonces : ClusterEncryptionType → List (List ℕ) → ℕ → Type 0
CountsNonces ClusterEncryptionType.none nonces n = Unit
CountsNonces ClusterEncryptionType.aes256 nonces n = length nonces ≡ n

-- A block that compresses and encrypts, into less than 4 GiB.
pub record IsStorable (c : Crates) (p : ProtectedHeader) (x : List ℕ) : Type 0 where
  pub packed : List ℕ
  pub packs : compress c p.cluster_compression x ≡ ok packed
  pub seals :
      (nonces : List (List ℕ)) (i : ℕ)
      → HasNonce p.cluster_encryption nonces i
      → (sealed : List ℕ) × (encrypt_cluster c p.cluster_encryption p.cluster_key nonces i packed
          ≡ ok sealed)
        × (length sealed < 2 ^ 32)

abbrev pub map_of : List Block → OrdinalMap
map_of bs = build_cluster_ordinal_map (map entry_of bs)

-- `bs` are the blocks taken so far, and `remaining` are to come. `base` is where the cluster region
-- begins.
pub record Represents (c : Crates) (p : ProtectedHeader) (D : List ℕ → Type 0) (base : ℕ)
    (remaining : ℕ) (bs : List Block) (s : Conversion) : Type 0 where
  pub listed : s.entries ≡ map entry_of bs
  pub positioned : s.cluster_offset ≡ length s.file
  pub numbered : s.ordinal ≡ length (map_of bs)
  pub budget : s.cluster_count ≡ s.ordinal + remaining
  pub nonces : CountsNonces p.cluster_encryption s.nonce_table s.cluster_count
  pub extends : Extends s.nonce_table p.nonce_table
  pub stored : All (InFile c p (map_of bs) s.file) bs
  pub known : All (λ b. D b.1) bs
  pub taken : s.hashed ≡ drop base s.file
  pub based : base ≤ length s.file
  pub begun : All (λ b. base ≤ b.0.cluster_offset) bs

pub map_snoc :
    (bs : List Block) (b : Block) → map entry_of (bs ++ b ∷ []) ≡ map entry_of bs ++ b.0 ∷ []
map_snoc [] b = refl
map_snoc (x ∷ bs) b = ap (λ (es : List DigestTableEntry). x.0 ∷ es) (map_snoc bs b)

pub map_of-snoc :
    (bs : List Block) (b : Block)
    → map_of (bs ++ b ∷ []) ≡ or_insert b.0.cluster_offset (length (map_of bs)) (map_of bs)
unfolding build_cluster_ordinal_map
map_of-snoc bs b = rw (map_snoc bs b) (ordinals_from-snoc [] (map entry_of bs) b.0)

pub All-grow :
    (c : Crates) (p : ProtectedHeader) (m : OrdinalMap) (file more : List ℕ) (o : ℕ)
    (bs : List Block)
    → All (InFile c p m file) bs
    → All (InFile c p (or_insert o (length m) m) (file ++ more)) bs
All-grow c p m file more o [] h = tt
All-grow c p m file more o (b ∷ bs) h =
    (InFile-grow c p m file b more o h.0, All-grow c p m file more o bs h.1)

pub All-within :
    (c : Crates) (p : ProtectedHeader) (m : OrdinalMap) (file : List ℕ) (bs : List Block)
    → All (InFile c p m file) bs
    → All (λ e. e.cluster_offset < length file) (map entry_of bs)
All-within c p m file [] h = tt
All-within c p m file (b ∷ bs) h = (InFile→within c p m file b h.0, All-within c p m file bs h.1)

-- The entry whose digest was found, with its block.
pub find_digest-found :
    (P : Block → Type 0) (digest : List ℕ) (bs : List Block) (o : ℕ)
    → All P bs
    → find_digest digest (map entry_of bs) ≡ some o
    → (b : Block) × P b × (b.0.digest ≡ digest) × (b.0.cluster_offset ≡ o)
unfolding find_digest
find_digest-found P digest [] o h e = cc
find_digest-found P digest (b ∷ bs) o h e = elim (Bool-cases (bytes_eq b.0.digest digest)) [
  | inl q ↦ (b, h.0, bytes_eq→eq b.0.digest digest q, cc (rw q at e))
  | inr q ↦ find_digest-found P digest bs o h.1 (rw q at e)
]
