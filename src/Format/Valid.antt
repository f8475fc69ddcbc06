-- ===== src/Format/Valid.antt =====
-- What a section must satisfy for its own fields to describe its bytes: the lengths equal the
-- counts that stand before them, and each integer fits its width.
use goldboot.Base.{ℕ, ◌^◌, ◌<◌, ◌≡◌, List, length, All}
use goldboot.Format.{
  ElementHeader, PrimaryHeader, ProtectedHeader, Directory, DigestTableEntry, DigestTable, Cluster,
}
use goldboot.Format.Read.{nonce_count}

pub record IsElement (e : ElementHeader) : Type 0 where
  pub os_fits : e.os_length < 256 ^ 1
  pub os_counted : e.os_length ≡ length e.os
  pub name_fits : e.name_length < 256 ^ 1
  pub name_counted : e.name_length ≡ length e.name

pub record IsPrimary (h : PrimaryHeader) : Type 0 where
  pub version_two : h.version ≡ 2
  pub size_fits : h.size < 256 ^ 8
  pub timestamp_fits : h.timestamp < 256 ^ 8
  pub elements_fit : h.element_count < 256 ^ 1
  pub elements_counted : h.element_count ≡ length h.elements
  pub elements_valid : All IsElement h.elements
  pub name_fits : h.name_length < 256 ^ 1
  pub name_counted : h.name_length ≡ length h.name
  pub tag_fits : h.tag_length < 256 ^ 1
  pub tag_counted : h.tag_length ≡ length h.tag
  pub content_id_long : 32 ≡ length h.content_id
  pub nonce_long : 12 ≡ length h.directory_nonce
  pub offset_fits : h.directory_offset < 256 ^ 8
  pub directory_fits : h.directory_size < 256 ^ 4

abbrev pub IsNonce : List ℕ → Type 0
IsNonce n = 12 ≡ length n

pub record IsProtected (p : ProtectedHeader) : Type 0 where
  pub block_size_fits : p.block_size < 256 ^ 4
  pub cluster_count_fits : p.cluster_count < 256 ^ 4
  pub nonces_counted : nonce_count p.cluster_encryption p.cluster_count ≡ length p.nonce_table
  pub nonces_long : All IsNonce p.nonce_table
  pub key_long : 32 ≡ length p.cluster_key

pub record IsDirectory (d : Directory) : Type 0 where
  pub protected_nonce_long : 12 ≡ length d.protected_nonce
  pub protected_fits : d.protected_size < 256 ^ 4
  pub digest_nonce_long : 12 ≡ length d.digest_table_nonce
  pub offset_fits : d.digest_table_offset < 256 ^ 8
  pub digest_fits : d.digest_table_size < 256 ^ 4

pub record IsEntry (e : DigestTableEntry) : Type 0 where
  pub cluster_fits : e.cluster_offset < 256 ^ 8
  pub block_fits : e.block_offset < 256 ^ 8
  pub digest_long : 32 ≡ length e.digest

pub record IsDigestTable (t : DigestTable) : Type 0 where
  pub count_fits : t.digest_count < 256 ^ 4
  pub counted : t.digest_count ≡ length t.digest_table
  pub entries_valid : All IsEntry t.digest_table

pub record IsCluster (c : Cluster) : Type 0 where
  pub size_fits : c.size < 256 ^ 4
  pub counted : c.size ≡ length c.bytes
