-- ===== src/Convert/Image.antt =====
-- `from_qcow`: the sections around the cluster region.
use goldboot.Base.{
  ℕ, ◌%◌, ◌^◌, List, [], ◌++◌, Option, none, some, length, replicate, ltb, if◌then◌else◌, write_at,
  Result, ok, err, bind, too_long,
}
use goldboot.Crates.{Crates, new_key}
use goldboot.Format.{
  ImageArch, PrimaryHeader, ProtectedHeader, Directory, DigestTable, ElementHeader,
  HeaderEncryptionType, ClusterEncryptionType, ClusterCompressionType,
}
use goldboot.Format.Write.{write_primary, write_protected, write_directory, write_digest_table}
use goldboot.Handle.{ImageHandle, unwrap_or_default}
use goldboot.Qcow.{Qcow3, cluster_size, count_clusters}
use goldboot.Reference.{validate_ref_segment}
use goldboot.Convert.State.{Draws, Conversion, encrypted}
use goldboot.Convert.Loop.{convert_l1}

-- A section as it is stored: plain, or encrypted under the header key.
unfoldable pub seal_section :
    Crates → HeaderEncryptionType → List ℕ → List ℕ → List ℕ → Result (List ℕ)
seal_section c HeaderEncryptionType.none key nonce bytes = ok bytes
seal_section c HeaderEncryptionType.aes256 key nonce bytes = encrypted (c.encrypt key nonce bytes)

abbrev pub header_encryption : Option (List ℕ) → HeaderEncryptionType
header_encryption none = HeaderEncryptionType.none
header_encryption (some p) = HeaderEncryptionType.aes256

abbrev pub cluster_encryption_of : Option (List ℕ) → ClusterEncryptionType
cluster_encryption_of none = ClusterEncryptionType.none
cluster_encryption_of (some p) = ClusterEncryptionType.aes256

abbrev pub nonces_drawn : Option (List ℕ) → List (List ℕ) → List (List ℕ)
nonces_drawn none nonces = []
nonces_drawn (some p) nonces = nonces

-- `u8::try_from(..).context(..)?`.
abbrev pub fits_u8 : ℕ → Result (Unit {0})
fits_u8 n = if ltb n 256 then ok tt else err too_long

-- The primary header before the cluster region is known.
unfoldable pub initial_primary :
    List ℕ → List ℕ → List ElementHeader → Qcow3 → Option (List ℕ) → Draws → PrimaryHeader
initial_primary name tag metadata q password d = record {
  version = 2;
  size = q.header.size;
  timestamp = d.timestamp;
  encryption_type = header_encryption password;
  element_count = length metadata;
  elements = metadata;
  arch = ImageArch.amd64;
  name_length = length name;
  name = name;
  tag_length = length tag;
  tag = tag;
  content_id = replicate 32 0;
  directory_nonce = d.directory_nonce;
  directory_offset = 0;
  directory_size = 0;
}

unfoldable pub initial_protected : List ℕ → Qcow3 → Option (List ℕ) → Draws → ProtectedHeader
initial_protected source q password d =
    let cluster_count = count_clusters source q % 2 ^ 32 in
    record {
      block_size = cluster_size q.header % 2 ^ 32;
      cluster_count = cluster_count;
      cluster_compression = ClusterCompressionType.zstd;
      cluster_encryption = cluster_encryption_of password;
      nonce_table = nonces_drawn password (d.nonces cluster_count);
      cluster_key = d.cluster_key;
    }

abbrev pub table_of : ℕ → Conversion → DigestTable
table_of digest_count s = record { digest_count = digest_count; digest_table = s.entries }

unfoldable pub directory_of : Draws → ℕ → Conversion → List ℕ → Directory
directory_of d protected_size s table_bytes = record {
  protected_nonce = d.protected_nonce;
  protected_size = protected_size;
  digest_table_nonce = d.digest_table_nonce;
  digest_table_offset = length s.file;
  digest_table_size = length table_bytes % 2 ^ 32;
}

unfoldable pub final_primary : Crates → PrimaryHeader → Conversion → List ℕ → List ℕ → PrimaryHeader
final_primary c primary s table_bytes directory_bytes = record primary {
  content_id = c.sha256 s.hashed;
  directory_offset = length (s.file ++ table_bytes);
  directory_size = length directory_bytes % 2 ^ 32;
}

-- The file, whose primary header is written over, and the returned handle.
unfoldable pub complete :
    Crates
    → PrimaryHeader
    → ProtectedHeader
    → Directory
    → DigestTable
    → Conversion
    → List ℕ
    → List ℕ
    → List ℕ × ImageHandle
complete c primary protected directory table s table_bytes directory_bytes =
    let final = final_primary c primary s table_bytes directory_bytes in
    let written = write_at 0 (write_primary final) ((s.file ++ table_bytes) ++ directory_bytes) in
    (
      written,
      record {
        primary_header = final;
        protected_header =
            some
              (record protected { cluster_count = s.cluster_count; nonce_table = s.nonce_table });
        digest_table = some table;
        directory = some directory;
        file_size = length written;
        id = c.hex_encode (c.sha256 s.hashed);
      },
    )

unfoldable pub finish_directory :
    Crates
    → List ℕ
    → PrimaryHeader
    → ProtectedHeader
    → Directory
    → DigestTable
    → Conversion
    → List ℕ
    → Result (List ℕ × ImageHandle)
finish_directory c key primary protected directory table s table_bytes =
    bind
      (seal_section c primary.encryption_type key primary.directory_nonce
        (write_directory directory))
      λ directory_bytes.
        ok (complete c primary protected directory table s table_bytes directory_bytes)

-- The sections behind the cluster region.
unfoldable pub finish :
    Crates
    → List ℕ
    → Draws
    → PrimaryHeader
    → ProtectedHeader
    → ℕ
    → ℕ
    → Conversion
    → Result (List ℕ × ImageHandle)
finish c key d primary protected protected_size digest_count s =
    bind
      (seal_section c primary.encryption_type key d.digest_table_nonce
        (write_digest_table (table_of digest_count s)))
      λ table_bytes.
        finish_directory c key primary protected (directory_of d protected_size s table_bytes)
          (table_of digest_count s) s table_bytes

-- The variables before the loop.
unfoldable pub initial_conversion : List ℕ → ProtectedHeader → Conversion
initial_conversion start protected = record {
  entries = [];
  block_offset = 0;
  ordinal = 0;
  cluster_offset = length start;
  cluster_count = protected.cluster_count;
  nonce_table = protected.nonce_table;
  file = start;
  hashed = [];
}

-- The cluster region and what follows it, behind the headers.
unfoldable pub convert_body :
    Crates
    → List ℕ
    → Draws
    → List ℕ
    → Qcow3
    → PrimaryHeader
    → ProtectedHeader
    → List ℕ
    → Result (List ℕ × ImageHandle)
convert_body c key d source q primary protected protected_bytes =
    bind
      (convert_l1 c protected.cluster_compression protected.cluster_encryption protected.cluster_key
        source q q.l1_table
        (initial_conversion (write_primary primary ++ protected_bytes) protected))
      λ s.
        finish c key d primary protected (length protected_bytes % 2 ^ 32) protected.cluster_count s

unfoldable pub convert_image :
    Crates
    → List ℕ
    → Draws
    → List ℕ
    → Qcow3
    → PrimaryHeader
    → ProtectedHeader
    → Result (List ℕ × ImageHandle)
convert_image c key d source q primary protected =
    bind (seal_section c primary.encryption_type key d.protected_nonce (write_protected protected))
      λ protected_bytes. convert_body c key d source q primary protected protected_bytes

unfoldable pub from_qcow :
    Crates
    → List ℕ
    → List ℕ
    → List ElementHeader
    → List ℕ
    → Qcow3
    → Option (List ℕ)
    → Draws
    → Result (List ℕ × ImageHandle)
from_qcow c name tag metadata source q password d = bind (validate_ref_segment name) λ _.
    bind (validate_ref_segment tag) λ _. bind (fits_u8 (length metadata)) λ _.
      bind (fits_u8 (length name)) λ _. bind (fits_u8 (length tag)) λ _.
        convert_image c (new_key c (unwrap_or_default password)) d source q
          (initial_primary name tag metadata q password d) (initial_protected source q password d)
