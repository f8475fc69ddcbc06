-- ===== src/Format/Write.antt =====
-- The bytes that the derived `BinWrite` emits: the magic, then the fields in declaration order, each
-- integer big-endian at its declared width, an enum as its `u8` discriminant, a vector as its items.
use goldboot.Base.{ℕ, List, [], ◌∷◌, ◌++◌, be_bytes}
use goldboot.Format.{
  ImageArch, ClusterCompressionType, ClusterEncryptionType, HeaderEncryptionType, ElementHeader,
  PrimaryHeader, ProtectedHeader, Directory, DigestTableEntry, DigestTable, Cluster,
}

abbrev pub arch_code : ImageArch → ℕ
arch_code ImageArch.amd64 = 0
arch_code ImageArch.arm64 = 1
arch_code ImageArch.i386 = 2
arch_code ImageArch.mips = 3
arch_code ImageArch.mips64 = 4
arch_code ImageArch.s390x = 5

abbrev pub compression_code : ClusterCompressionType → ℕ
compression_code ClusterCompressionType.none = 0
compression_code ClusterCompressionType.zstd = 1

abbrev pub cluster_encryption_code : ClusterEncryptionType → ℕ
cluster_encryption_code ClusterEncryptionType.none = 0
cluster_encryption_code ClusterEncryptionType.aes256 = 1

abbrev pub header_encryption_code : HeaderEncryptionType → ℕ
header_encryption_code HeaderEncryptionType.none = 0
header_encryption_code HeaderEncryptionType.aes256 = 1

-- A vector: its items one after the other, with no length of its own.
unfoldable pub write_all {ℓ} : {A : Type ℓ} → (A → List ℕ) → List A → List ℕ
write_all f [] = []
write_all f (a ∷ rest) = f a ++ write_all f rest

unfoldable pub write_element : ElementHeader → List ℕ
write_element e = be_bytes 1 e.os_length ++ (e.os ++ (be_bytes 1 e.name_length ++ e.name))

abbrev pub image_magic : List ℕ
image_magic = 0xc0 ∷ 0x1d ∷ 0xb0 ∷ 0x01 ∷ []

unfoldable pub write_primary : PrimaryHeader → List ℕ
write_primary h =
    image_magic
    ++ (be_bytes 1 h.version
        ++ (be_bytes 8 h.size
            ++ (be_bytes 8 h.timestamp
                ++ (be_bytes 1 (header_encryption_code h.encryption_type)
                    ++ (be_bytes 1 h.element_count
                        ++ (write_all write_element h.elements
                            ++ (be_bytes 1 (arch_code h.arch)
                                ++ (be_bytes 1 h.name_length
                                    ++ (h.name
                                        ++ (be_bytes 1 h.tag_length
                                            ++ (h.tag
                                                ++ (h.content_id
                                                    ++ (h.directory_nonce
                                                        ++ (be_bytes 8 h.directory_offset
                                                            ++ be_bytes 4
                                                            h.directory_size))))))))))))))

unfoldable pub write_nonce : List ℕ → List ℕ
write_nonce n = n

unfoldable pub write_protected : ProtectedHeader → List ℕ
write_protected p =
    be_bytes 4 p.block_size
    ++ (be_bytes 4 p.cluster_count
        ++ (be_bytes 1 (compression_code p.cluster_compression)
            ++ (be_bytes 1 (cluster_encryption_code p.cluster_encryption)
                ++ (write_all write_nonce p.nonce_table ++ p.cluster_key))))

unfoldable pub write_directory : Directory → List ℕ
write_directory d =
    d.protected_nonce
    ++ (be_bytes 4 d.protected_size
        ++ (d.digest_table_nonce
            ++ (be_bytes 8 d.digest_table_offset ++ be_bytes 4 d.digest_table_size)))

unfoldable pub write_entry : DigestTableEntry → List ℕ
write_entry e = be_bytes 8 e.cluster_offset ++ (be_bytes 8 e.block_offset ++ e.digest)

unfoldable pub write_digest_table : DigestTable → List ℕ
write_digest_table t = be_bytes 4 t.digest_count ++ write_all write_entry t.digest_table

unfoldable pub write_cluster : Cluster → List ℕ
write_cluster c = be_bytes 4 c.size ++ c.bytes
