-- ===== src/Format.antt =====
-- goldboot-image/src/lib.rs, the sections of a `.gb` file: the types of the headers, the directory,
-- the digest table and the clusters. A byte is a number below 256 and a byte array is a list; the
-- widths of the fields are in `Format.Write` and `Format.Valid`.
pub mod Write
pub mod Read
pub mod Valid
pub mod RoundTrip
pub mod Layout
mod Tests
use goldboot.Base.{ℕ, Bool, true, false, List, ◌≡◌, refl, ◌⊎◌, inl, inr}

pub data ImageArch : Type 0 where
  amd64 arm64 i386 mips mips64 s390x : ImageArch

pub data ClusterCompressionType : Type 0 where
  none zstd : ClusterCompressionType

pub data ClusterEncryptionType : Type 0 where
  none aes256 : ClusterEncryptionType

pub data HeaderEncryptionType : Type 0 where
  none aes256 : HeaderEncryptionType

-- Metadata about an element of the image.
pub record ElementHeader : Type 0 where
  pub os_length : ℕ
  pub os : List ℕ
  pub name_length : ℕ
  pub name : List ℕ

pub record PrimaryHeader : Type 0 where
  pub version : ℕ
  pub size : ℕ
  pub timestamp : ℕ
  pub encryption_type : HeaderEncryptionType
  pub element_count : ℕ
  pub elements : List ElementHeader
  pub arch : ImageArch
  pub name_length : ℕ
  pub name : List ℕ
  pub tag_length : ℕ
  pub tag : List ℕ
  pub content_id : List ℕ
  pub directory_nonce : List ℕ
  pub directory_offset : ℕ
  pub directory_size : ℕ

pub record ProtectedHeader : Type 0 where
  pub block_size : ℕ
  pub cluster_count : ℕ
  pub cluster_compression : ClusterCompressionType
  pub cluster_encryption : ClusterEncryptionType
  pub nonce_table : List (List ℕ)
  pub cluster_key : List ℕ

pub record Directory : Type 0 where
  pub protected_nonce : List ℕ
  pub protected_size : ℕ
  pub digest_table_nonce : List ℕ
  pub digest_table_offset : ℕ
  pub digest_table_size : ℕ

pub record DigestTableEntry : Type 0 where
  pub cluster_offset : ℕ
  pub block_offset : ℕ
  pub digest : List ℕ

pub record DigestTable : Type 0 where
  pub digest_count : ℕ
  pub digest_table : List DigestTableEntry

pub record Cluster : Type 0 where
  pub size : ℕ
  pub bytes : List ℕ

-- `cluster_encryption != ClusterEncryptionType::None`.
abbrev pub is_encrypted : ClusterEncryptionType → Bool
is_encrypted none = false
is_encrypted aes256 = true
