-- ===== src/Format/Read.antt =====
-- The derived `BinRead`: the same fields in the same order, the counts taken from the fields that
-- the `count` attributes name, and the version checked by its `assert`.
use goldboot.Base.{
  ℕ, if◌then◌else◌, ◌==◌, bytes_eq, Reader, pure, fail, require, ◌>>=◌, ◌>>◌, read_exact, read_be,
  read_count, bad_magic, bad_version, no_variant,
}
use goldboot.Format.{
  ImageArch, ClusterCompressionType, ClusterEncryptionType, HeaderEncryptionType, ElementHeader,
  PrimaryHeader, ProtectedHeader, Directory, DigestTableEntry, DigestTable, Cluster, is_encrypted,
}
use goldboot.Format.Write.{image_magic}

abbrev arch_of : ℕ → Reader ImageArch
arch_of c =
    if c == 0
    then pure ImageArch.amd64
    else if c == 1
    then pure ImageArch.arm64
    else if c == 2
    then pure ImageArch.i386
    else if c == 3
    then pure ImageArch.mips
    else if c == 4
    then pure ImageArch.mips64
    else if c == 5
    then pure ImageArch.s390x
    else fail no_variant

unfoldable pub read_arch : Reader ImageArch
read_arch = read_be 1 >>= arch_of

abbrev compression_of : ℕ → Reader ClusterCompressionType
compression_of c =
    if c == 0
    then pure ClusterCompressionType.none
    else if c == 1
    then pure ClusterCompressionType.zstd
    else fail no_variant

unfoldable pub read_compression : Reader ClusterCompressionType
read_compression = read_be 1 >>= compression_of

abbrev cluster_encryption_of : ℕ → Reader ClusterEncryptionType
cluster_encryption_of c =
    if c == 0
    then pure ClusterEncryptionType.none
    else if c == 1
    then pure ClusterEncryptionType.aes256
    else fail no_variant

unfoldable pub read_cluster_encryption : Reader ClusterEncryptionType
read_cluster_encryption = read_be 1 >>= cluster_encryption_of

abbrev header_encryption_of : ℕ → Reader HeaderEncryptionType
header_encryption_of c =
    if c == 0
    then pure HeaderEncryptionType.none
    else if c == 1
    then pure HeaderEncryptionType.aes256
    else fail no_variant

unfoldable pub read_header_encryption : Reader HeaderEncryptionType
read_header_encryption = read_be 1 >>= header_encryption_of

unfoldable pub read_element : Reader ElementHeader
read_element = do
  os_length ← read_be 1
  os ← read_exact os_length
  name_length ← read_be 1
  name ← read_exact name_length
  pure (record { os_length = os_length; os = os; name_length = name_length; name = name })

unfoldable pub read_primary : Reader PrimaryHeader
read_primary = do
  magic ← read_exact 4
  require (bytes_eq magic image_magic) bad_magic
  version ← read_be 1
  require (version == 2) bad_version
  size ← read_be 8
  timestamp ← read_be 8
  encryption_type ← read_header_encryption
  element_count ← read_be 1
  elements ← read_count element_count read_element
  arch ← read_arch
  name_length ← read_be 1
  name ← read_exact name_length
  tag_length ← read_be 1
  tag ← read_exact tag_length
  content_id ← read_exact 32
  directory_nonce ← read_exact 12
  directory_offset ← read_be 8
  directory_size ← read_be 4
  pure (record {
    version = version;
    size = size;
    timestamp = timestamp;
    encryption_type = encryption_type;
    element_count = element_count;
    elements = elements;
    arch = arch;
    name_length = name_length;
    name = name;
    tag_length = tag_length;
    tag = tag;
    content_id = content_id;
    directory_nonce = directory_nonce;
    directory_offset = directory_offset;
    directory_size = directory_size;
  })

-- `count = if cluster_encryption != None { cluster_count } else { 0 }`.
abbrev pub nonce_count : ClusterEncryptionType → ℕ → ℕ
nonce_count encryption cluster_count = if is_encrypted encryption then cluster_count else 0

unfoldable pub read_protected : Reader ProtectedHeader
read_protected = do
  block_size ← read_be 4
  cluster_count ← read_be 4
  compression ← read_compression
  encryption ← read_cluster_encryption
  nonce_table ← read_count (nonce_count encryption cluster_count) (read_exact 12)
  cluster_key ← read_exact 32
  pure (record {
    block_size = block_size;
    cluster_count = cluster_count;
    cluster_compression = compression;
    cluster_encryption = encryption;
    nonce_table = nonce_table;
    cluster_key = cluster_key;
  })

unfoldable pub read_directory : Reader Directory
read_directory = do
  protected_nonce ← read_exact 12
  protected_size ← read_be 4
  digest_table_nonce ← read_exact 12
  digest_table_offset ← read_be 8
  digest_table_size ← read_be 4
  pure (record {
    protected_nonce = protected_nonce;
    protected_size = protected_size;
    digest_table_nonce = digest_table_nonce;
    digest_table_offset = digest_table_offset;
    digest_table_size = digest_table_size;
  })

unfoldable pub read_entry : Reader DigestTableEntry
read_entry = do
  cluster_offset ← read_be 8
  block_offset ← read_be 8
  digest ← read_exact 32
  pure (record { cluster_offset = cluster_offset; block_offset = block_offset; digest = digest })

unfoldable pub read_digest_table : Reader DigestTable
read_digest_table = do
  digest_count ← read_be 4
  entries ← read_count digest_count read_entry
  pure (record { digest_count = digest_count; digest_table = entries })

unfoldable pub read_cluster : Reader Cluster
read_cluster = do
  size ← read_be 4
  bytes ← read_exact size
  pure (record { size = size; bytes = bytes })
