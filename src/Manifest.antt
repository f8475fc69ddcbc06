-- ===== src/Manifest.antt =====
-- goldboot-image/src/lib.rs: the GBMF manifest (`ManifestBlob`, `read_length_prefixed`,
-- `write_length_prefixed`) and `parse_manifest`.
pub mod RoundTrip
mod Tests
use goldboot.Base.{
  ℕ, ◌+◌, ◌*◌, ◌%◌, ◌^◌, Bool, true, false, not, List, [], ◌∷◌, ◌++◌, length, get_or, ltb, ◌==◌,
  bytes_eq, if◌then◌else◌, bit_and, be_bytes, of_be, Reader, pure, require, fail, ◌>>=◌, ◌>>◌,
  read_exact, bad_magic, bad_version, section_too_large,
}

-- `b"GBMF"`.
abbrev pub manifest_magic : List ℕ
manifest_magic = 0x47 ∷ 0x42 ∷ 0x4d ∷ 0x46 ∷ []

abbrev pub manifest_version : ℕ
manifest_version = 1

abbrev pub manifest_flag_headers_encrypted : ℕ
manifest_flag_headers_encrypted = 0x01

-- The cap of `read_length_prefixed`, 32 MiB.
abbrev pub section_cap : ℕ
section_cap = 32 * 1024 * 1024

pub record ManifestBlob : Type 0 where
  pub headers_encrypted : Bool
  pub primary_bytes : List ℕ
  pub protected_bytes : List ℕ
  pub directory_bytes : List ℕ
  pub digest_table_bytes : List ℕ

unfoldable pub read_length_prefixed : Reader (List ℕ)
read_length_prefixed = do
  len_bytes ← read_exact 4
  require (not (ltb section_cap (of_be len_bytes))) section_too_large
  read_exact (of_be len_bytes)

-- `data.len() as u32` keeps the low 32 bits.
unfoldable pub write_length_prefixed : List ℕ → List ℕ
write_length_prefixed bytes = be_bytes 4 (length bytes % 2 ^ 32) ++ bytes

unfoldable pub read_from : Reader ManifestBlob
read_from = do
  magic ← read_exact 4
  require (bytes_eq magic manifest_magic) bad_magic
  hdr ← read_exact 4
  require (get_or hdr 0 0 == manifest_version) bad_version
  primary_bytes ← read_length_prefixed
  protected_bytes ← read_length_prefixed
  directory_bytes ← read_length_prefixed
  digest_table_bytes ← read_length_prefixed
  pure (record {
    headers_encrypted = not (bit_and (get_or hdr 1 0) manifest_flag_headers_encrypted == 0);
    primary_bytes = primary_bytes;
    protected_bytes = protected_bytes;
    directory_bytes = directory_bytes;
    digest_table_bytes = digest_table_bytes;
  })

unfoldable pub write_to : ManifestBlob → List ℕ
write_to m =
    manifest_magic
    ++ ((manifest_version
          ∷ (if m.headers_encrypted then manifest_flag_headers_encrypted else 0)
          ∷ 0
          ∷ 0
          ∷ [])
        ++ (write_length_prefixed m.primary_bytes
            ++ (write_length_prefixed m.protected_bytes
                ++ (write_length_prefixed m.directory_bytes
                    ++ write_length_prefixed m.digest_table_bytes))))
