-- ===== src/Handle.antt =====
-- goldboot-image/src/lib.rs, `ImageHandle`: opening a `.gb` file, loading its sections, slicing it.
-- The file at `path` is passed as its bytes.
pub mod Region
mod Tests
use goldboot.Base.{
  ℕ, zero, suc, ◌+◌, ◌-◌, Bool, true, false, List, [], ◌++◌, Option, none, some, length, take, drop,
  ltb, leb, if◌then◌else◌, Result, ok, err, bind, Reader, read_exact, not_loaded, malformed_image,
  panicked, decryption_failed,
}
use goldboot.Crates.{Crates, new_key}
use goldboot.Format.{PrimaryHeader, ProtectedHeader, Directory, DigestTable, HeaderEncryptionType}
use goldboot.Format.Write.{write_primary}
use goldboot.Format.Read.{read_primary, read_protected, read_directory, read_digest_table}
use goldboot.Manifest.{ManifestBlob}

pub record ImageHandle : Type 0 where
  pub primary_header : PrimaryHeader
  pub protected_header : Option ProtectedHeader
  pub digest_table : Option DigestTable
  pub directory : Option Directory
  pub file_size : ℕ
  pub id : List ℕ

-- `Cursor::new(bytes).read_be()`, and a read of a file after `seek(Start(offset))`.
unfoldable pub decode {ℓ} : {A : Type ℓ} → Reader A → List ℕ → Result A
decode p bytes = bind (p bytes) λ (a, _). ok a

-- `read_exact` into a buffer of n bytes at an offset.
unfoldable pub read_slice : ℕ → ℕ → List ℕ → Result (List ℕ)
unfolding decode
read_slice offset n file = decode (read_exact n) (drop offset file)

abbrev pub decrypted : Option (List ℕ) → Result (List ℕ)
decrypted none = err decryption_failed
decrypted (some plain) = ok plain

abbrev pub unwrap_or_default : Option (List ℕ) → List ℕ
unwrap_or_default none = []
unwrap_or_default (some s) = s

-- A section at an offset: read in place when headers are plain; else its stored size is read,
-- decrypted, and then parsed.
unfoldable pub load_section {ℓ} :
    {A : Type ℓ}
    → Crates
    → HeaderEncryptionType
    → List ℕ
    → Reader A
    → ℕ
    → ℕ
    → List ℕ
    → List ℕ
    → Result A
load_section c HeaderEncryptionType.none key p offset size nonce file = decode p (drop offset file)
load_section c HeaderEncryptionType.aes256 key p offset size nonce file =
    bind (read_slice offset size file)
      λ sealed. bind (decrypted (c.decrypt key nonce sealed)) λ plain. decode p plain

-- Where the reader stands after a header: what it left is at the end of the file.
abbrev pub position {ℓ} : {A : Type ℓ} → List ℕ → A × List ℕ → ℕ
position file (a, rest) = length file - length rest

-- `ImageHandle::load`.
unfoldable pub load : Crates → List ℕ → Option (List ℕ) → ImageHandle → Result ImageHandle
load c file password h =
    let primary = h.primary_header in
    let key = new_key c (unwrap_or_default password) in
    let enc = primary.encryption_type in
    bind
      (load_section c enc key read_directory primary.directory_offset primary.directory_size
        primary.directory_nonce file)
      λ directory. bind (read_primary file) λ skipped.
        bind
          (load_section c enc key read_protected (position file skipped) directory.protected_size
            directory.protected_nonce file)
          λ protected.
            bind
              (load_section c enc key read_digest_table directory.digest_table_offset
                directory.digest_table_size directory.digest_table_nonce file)
              λ digest_table. ok (record h {
                directory = some directory;
                protected_header = some protected;
                digest_table = some digest_table;
              })

-- `ImageHandle::open`.
unfoldable pub open_image : Crates → List ℕ → Result ImageHandle
open_image c file = bind (read_primary file) λ (primary, rest). elim (primary.encryption_type) [
  | HeaderEncryptionType.none ↦ bind (decode read_protected rest) λ protected.
      bind (decode read_directory (drop primary.directory_offset file)) λ directory. ok (record {
        primary_header = primary;
        protected_header = some protected;
        digest_table = none;
        directory = some directory;
        file_size = length file;
        id = c.hex_encode primary.content_id;
      })
  | HeaderEncryptionType.aes256 ↦ ok (record {
    primary_header = primary;
    protected_header = none;
    digest_table = none;
    directory = none;
    file_size = length file;
    id = c.hex_encode primary.content_id;
  })
]

unfoldable pub primary_header_len : ImageHandle → ℕ
primary_header_len h = length (write_primary h.primary_header)

abbrev pub loaded {ℓ} : {A : Type ℓ} → Option A → Result A
loaded none = err not_loaded
loaded (some a) = ok a

abbrev pub is_aes256 : HeaderEncryptionType → Bool
is_aes256 HeaderEncryptionType.none = false
is_aes256 HeaderEncryptionType.aes256 = true

-- `ImageHandle::read_manifest_blob`.
unfoldable pub read_manifest_blob : List ℕ → ImageHandle → Result ManifestBlob
unfolding primary_header_len
read_manifest_blob file h = bind (loaded h.directory) λ directory.
    bind (read_slice 0 (primary_header_len h) file) λ primary_bytes.
      bind (read_slice (primary_header_len h) directory.protected_size file) λ protected_bytes.
        bind (read_slice directory.digest_table_offset directory.digest_table_size file)
          λ digest_table_bytes.
            bind (read_slice h.primary_header.directory_offset h.primary_header.directory_size file)
              λ directory_bytes. ok (record {
                headers_encrypted = is_aes256 h.primary_header.encryption_type;
                primary_bytes = primary_bytes;
                protected_bytes = protected_bytes;
                directory_bytes = directory_bytes;
                digest_table_bytes = digest_table_bytes;
              })

-- `ImageHandle::cluster_region_bounds`.
unfoldable pub cluster_region_bounds : ImageHandle → Result (ℕ × ℕ)
unfolding primary_header_len
cluster_region_bounds h = bind (loaded h.directory) λ directory.
    let start = primary_header_len h + directory.protected_size in
    let end = directory.digest_table_offset in
    if ltb end start then err malformed_image else ok (start, end)

-- `compute_content_id`: the hasher takes the region in pieces of at most 64 KiB, so what it has
-- taken in the end is the region, or less of it where the file ends early.
unfoldable pub hash_region : ℕ → ℕ → List ℕ → List ℕ
hash_region zero remaining file = []
hash_region (suc fuel) remaining file =
    let n = if ltb remaining 65536 then remaining else 65536 in
    let piece = take n file in
    let rest = hash_region fuel (remaining - length piece) (drop n file) in
    if leb remaining 0 then [] else if leb (length piece) 0 then [] else piece ++ rest

-- `cluster_region_end - cluster_region_start` must not wrap.
unfoldable pub compute_content_id : Crates → List ℕ → ℕ → ℕ → Result (List ℕ)
compute_content_id c file start end =
    if ltb end start
    then err panicked
    else ok (c.sha256 (hash_region (length file + 1) (end - start) (drop start file)))
