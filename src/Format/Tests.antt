-- ===== src/Format/Tests.antt =====
-- Concrete sections, and the round trips on them.
use goldboot.Base.{◌≡◌, refl, [], ◌∷◌, ◌++◌, replicate, arith, length, ok}
use goldboot.Format.{
  ImageArch, ClusterCompressionType, ClusterEncryptionType, HeaderEncryptionType, PrimaryHeader,
  ProtectedHeader, Directory, DigestTable,
}
use goldboot.Format.Write.{write_primary, write_protected, write_directory, write_digest_table}
use goldboot.Format.Read.{read_primary, read_protected, read_directory, read_digest_table}
use goldboot.Format.Valid.{IsPrimary}
use goldboot.Format.RoundTrip.{
  read_primary-write_primary, read_protected-write_protected, read_directory-write_directory,
  read_digest_table-write_digest_table,
}
use goldboot.Format.Layout.{patch_primary, length-write_primary_patched}

abbrev primary : PrimaryHeader
primary = record {
  version = 2;
  size = 1048576;
  timestamp = 1700000000;
  encryption_type = HeaderEncryptionType.aes256;
  element_count = 1;
  elements =
      record { os_length = 3; os = b'a' ∷ b'l' ∷ b'p' ∷ []; name_length = 1; name = b'x' ∷ [] }
      ∷ [];
  arch = ImageArch.arm64;
  name_length = 2;
  name = b'v' ∷ b'm' ∷ [];
  tag_length = 1;
  tag = b'1' ∷ [];
  content_id = replicate 32 5;
  directory_nonce = replicate 12 6;
  directory_offset = 70000;
  directory_size = 72;
}

primary-IsPrimary : IsPrimary primary
primary-IsPrimary = record {
  version_two = refl;
  size_fits = omega arith;
  timestamp_fits = omega arith;
  elements_fit = omega arith;
  elements_counted = refl;
  elements_valid = (
    record {
      os_fits = omega arith;
      os_counted = refl;
      name_fits = omega arith;
      name_counted = refl;
    },
    tt,
  );
  name_fits = omega arith;
  name_counted = refl;
  tag_fits = omega arith;
  tag_counted = refl;
  content_id_long = refl;
  nonce_long = refl;
  offset_fits = omega arith;
  directory_fits = omega arith;
}

read_primary-write_primary_example :
    read_primary (write_primary primary ++ (1 ∷ 2 ∷ [])) ≡ ok (primary, 1 ∷ 2 ∷ [])
read_primary-write_primary_example =
    read_primary-write_primary primary (1 ∷ 2 ∷ []) primary-IsPrimary

length-write_primary_patched_example :
    length (write_primary (patch_primary (replicate 32 9) 123456 100 primary))
    ≡ length (write_primary primary)
length-write_primary_patched_example =
    length-write_primary_patched primary (replicate 32 9) 123456 100 refl

abbrev protected : ProtectedHeader
protected = record {
  block_size = 65536;
  cluster_count = 2;
  cluster_compression = ClusterCompressionType.zstd;
  cluster_encryption = ClusterEncryptionType.aes256;
  nonce_table = replicate 12 1 ∷ replicate 12 2 ∷ [];
  cluster_key = replicate 32 3;
}

read_protected-write_protected_example :
    read_protected (write_protected protected ++ (7 ∷ [])) ≡ ok (protected, 7 ∷ [])
read_protected-write_protected_example = read_protected-write_protected protected (7 ∷ []) (record {
  block_size_fits = omega arith;
  cluster_count_fits = omega arith;
  nonces_counted = refl;
  nonces_long = (refl, (refl, tt));
  key_long = refl;
})

abbrev directory : Directory
directory = record {
  protected_nonce = replicate 12 1;
  protected_size = 66;
  digest_table_nonce = replicate 12 2;
  digest_table_offset = 60000;
  digest_table_size = 100;
}

read_directory-write_directory_example :
    read_directory (write_directory directory ++ (7 ∷ [])) ≡ ok (directory, 7 ∷ [])
read_directory-write_directory_example = read_directory-write_directory directory (7 ∷ []) (record {
  protected_nonce_long = refl;
  protected_fits = omega arith;
  digest_nonce_long = refl;
  offset_fits = omega arith;
  digest_fits = omega arith;
})

abbrev table : DigestTable
table = record {
  digest_count = 1;
  digest_table =
      record { cluster_offset = 200; block_offset = 65536; digest = replicate 32 8 } ∷ [];
}

read_digest_table-write_digest_table_example :
    read_digest_table (write_digest_table table ++ (7 ∷ [])) ≡ ok (table, 7 ∷ [])
read_digest_table-write_digest_table_example =
    read_digest_table-write_digest_table table (7 ∷ []) (record {
      count_fits = omega arith;
      counted = refl;
      entries_valid =
          (record { cluster_fits = omega arith; block_fits = omega arith; digest_long = refl }, tt);
    })
