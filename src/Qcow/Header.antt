-- ===== src/Qcow/Header.antt =====
-- goldboot-image/src/qcow/header.rs.
use goldboot.Base.{
  ℕ, ◌/◌, ◌^◌, List, [], ◌∷◌, if◌then◌else◌, ltb, ◌==◌, bytes_eq, Reader, pure, fail, require,
  ◌>>=◌, ◌>>◌, read_exact, read_be, bad_magic, bad_version, no_variant,
}

pub data CompressionType : Type 0 where
  zlib zstd : CompressionType

-- The fields that the source keeps private are not kept.
pub record QcowHeader : Type 0 where
  pub version : ℕ
  pub cluster_bits : ℕ
  pub size : ℕ
  pub l1_size : ℕ
  pub l1_table_offset : ℕ
  pub nb_snapshots : ℕ
  pub snapshots_offset : ℕ
  pub header_len : ℕ
  pub compression_type : CompressionType

-- "QFI\xfb".
abbrev pub qcow_magic : List ℕ
qcow_magic = 0x51 ∷ 0x46 ∷ 0x49 ∷ 0xfb ∷ []

unfoldable pub compression_type_of : ℕ → Reader CompressionType
compression_type_of c =
    if c == 0
    then pure CompressionType.zlib
    else if c == 1
    then pure CompressionType.zstd
    else fail no_variant

-- `if(header_len > 104)`, and the default otherwise.
unfoldable pub read_compression_type : ℕ → Reader CompressionType
unfolding compression_type_of
read_compression_type header_len =
    if ltb 104 header_len then (read_be 1 >>= compression_type_of) else pure CompressionType.zlib

-- The incompatible features end at byte 80, so `align_after = 8` skips nothing.
unfoldable pub read_qcow_header : Reader QcowHeader
unfolding read_compression_type
read_qcow_header = do
  magic ← read_exact 4
  require (bytes_eq magic qcow_magic) bad_magic
  version ← read_be 4
  require (version == 3) bad_version
  backing_file_offset ← read_be 8
  backing_file_size ← read_be 4
  cluster_bits ← read_be 4
  size ← read_be 8
  crypt_method ← read_be 4
  l1_size ← read_be 4
  l1_table_offset ← read_be 8
  refcount_table_offset ← read_be 8
  refcount_table_clusters ← read_be 4
  nb_snapshots ← read_be 4
  snapshots_offset ← read_be 8
  incompatible_features ← read_be 8
  compatible_features ← read_be 8
  autoclear_features ← read_be 8
  refcount_order ← read_be 4
  header_len ← read_be 4
  compression_type ← read_compression_type header_len
  end ← read_be 4
  pure (record {
    version = version;
    cluster_bits = cluster_bits;
    size = size;
    l1_size = l1_size;
    l1_table_offset = l1_table_offset;
    nb_snapshots = nb_snapshots;
    snapshots_offset = snapshots_offset;
    header_len = header_len;
    compression_type = compression_type;
  })

unfoldable pub cluster_size : QcowHeader → ℕ
cluster_size h = 2 ^ h.cluster_bits

unfoldable pub l2_entries_per_cluster : QcowHeader → ℕ
unfolding cluster_size
l2_entries_per_cluster h = cluster_size h / 8
