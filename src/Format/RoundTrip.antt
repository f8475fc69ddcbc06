-- ===== src/Format/RoundTrip.antt =====
-- Every section of a `.gb` file reads back as it was written, whatever follows it.
use goldboot.Base.{
  ℕ, ◌++◌, ok, ◌≡◌, refl, List, [], ◌∷◌, length, All, be_bytes, arith, Reader, read_exact,
  read_count, Reads, read_exact-Reads, read_be-Reads, Reads-bind, Reads-last, Reads-pure,
  Reads-require, ==_iff,
}
use goldboot.Format.{
  ImageArch, ClusterCompressionType, ClusterEncryptionType, HeaderEncryptionType, ElementHeader,
  PrimaryHeader, ProtectedHeader, Directory, DigestTableEntry, DigestTable, Cluster,
}
use goldboot.Format.Write.{
  arch_code, compression_code, cluster_encryption_code, header_encryption_code, write_all,
  write_element, image_magic, write_primary, write_nonce, write_protected, write_directory,
  write_entry, write_digest_table, write_cluster,
}
use goldboot.Format.Read.{
  read_arch, read_compression, read_cluster_encryption, read_header_encryption, read_element,
  read_primary, read_protected, read_directory, read_entry, read_digest_table, read_cluster,
}
use goldboot.Format.Valid.{
  IsElement, IsPrimary, IsNonce, IsProtected, IsDirectory, IsEntry, IsDigestTable, IsCluster,
}

-- A count that was read, in place of the length of what it counts.
bytes-Reads : {n : ℕ} (bs : List ℕ) → n ≡ length bs → Reads (read_exact n) bs bs
bytes-Reads bs h = rw h (read_exact-Reads bs)

read_all-Reads {ℓ} :
    {A : Type ℓ} (p : Reader A) (f : A → List ℕ) (P : A → Type 0)
    → ((a : A) → P a → Reads p (f a) a)
    → (xs : List A) → All P xs
    → Reads (read_count (length xs) p) (write_all f xs) xs
unfolding read_count write_all
read_all-Reads p f P item [] h = Reads-pure []
read_all-Reads p f P item (x ∷ xs) h =
    Reads-bind _ (item x h.0) (Reads-last _ (read_all-Reads p f P item xs h.1) refl)

read_arch-Reads : (c : ImageArch) → Reads read_arch (be_bytes 1 (arch_code c)) c
unfolding read_arch
read_arch-Reads ImageArch.amd64 = Reads-last _ (read_be-Reads 1 _ (omega arith)) refl
read_arch-Reads ImageArch.arm64 = Reads-last _ (read_be-Reads 1 _ (omega arith)) refl
read_arch-Reads ImageArch.i386 = Reads-last _ (read_be-Reads 1 _ (omega arith)) refl
read_arch-Reads ImageArch.mips = Reads-last _ (read_be-Reads 1 _ (omega arith)) refl
read_arch-Reads ImageArch.mips64 = Reads-last _ (read_be-Reads 1 _ (omega arith)) refl
read_arch-Reads ImageArch.s390x = Reads-last _ (read_be-Reads 1 _ (omega arith)) refl

read_compression-Reads :
    (c : ClusterCompressionType) → Reads read_compression (be_bytes 1 (compression_code c)) c
unfolding read_compression
read_compression-Reads ClusterCompressionType.none =
    Reads-last _ (read_be-Reads 1 _ (omega arith)) refl
read_compression-Reads ClusterCompressionType.zstd =
    Reads-last _ (read_be-Reads 1 _ (omega arith)) refl

read_cluster_encryption-Reads :
    (c : ClusterEncryptionType)
    → Reads read_cluster_encryption (be_bytes 1 (cluster_encryption_code c)) c
unfolding read_cluster_encryption
read_cluster_encryption-Reads ClusterEncryptionType.none =
    Reads-last _ (read_be-Reads 1 _ (omega arith)) refl
read_cluster_encryption-Reads ClusterEncryptionType.aes256 =
    Reads-last _ (read_be-Reads 1 _ (omega arith)) refl

read_header_encryption-Reads :
    (c : HeaderEncryptionType)
    → Reads read_header_encryption (be_bytes 1 (header_encryption_code c)) c
unfolding read_header_encryption
read_header_encryption-Reads HeaderEncryptionType.none =
    Reads-last _ (read_be-Reads 1 _ (omega arith)) refl
read_header_encryption-Reads HeaderEncryptionType.aes256 =
    Reads-last _ (read_be-Reads 1 _ (omega arith)) refl

read_element-Reads : (e : ElementHeader) → IsElement e → Reads read_element (write_element e) e
unfolding read_element write_element
read_element-Reads e v = Reads-bind _ (read_be-Reads 1 e.os_length v.os_fits) (
    Reads-bind _ (bytes-Reads e.os v.os_counted) (
      Reads-bind _ (read_be-Reads 1 e.name_length v.name_fits)
        (Reads-last _ (bytes-Reads e.name v.name_counted) refl)))

-- The same at the count that stands before the items.
count-Reads {ℓ} :
    {A : Type ℓ} {n : ℕ} (p : Reader A) (f : A → List ℕ) (P : A → Type 0)
    → ((a : A) → P a → Reads p (f a) a)
    → (xs : List A) → n ≡ length xs
    → All P xs
    → Reads (read_count n p) (write_all f xs) xs
count-Reads p f P item xs e h = rw e (read_all-Reads p f P item xs h)

pub read_primary-Reads : (h : PrimaryHeader) → IsPrimary h → Reads read_primary (write_primary h) h
unfolding read_primary write_primary
read_primary-Reads h v = Reads-bind _ (bytes-Reads image_magic refl) (
    Reads-require _ (refl) (
      Reads-bind _ (read_be-Reads 1 h.version (omega (arith, v.version_two))) (
        Reads-require _ ((==_iff h.version 2).1 v.version_two) (
          Reads-bind _ (read_be-Reads 8 h.size v.size_fits) (
            Reads-bind _ (read_be-Reads 8 h.timestamp v.timestamp_fits) (
              Reads-bind _ (read_header_encryption-Reads h.encryption_type) (
                Reads-bind _ (read_be-Reads 1 h.element_count v.elements_fit) (
                  Reads-bind _
                    (count-Reads read_element write_element IsElement read_element-Reads h.elements
                      v.elements_counted v.elements_valid)
                    (Reads-bind _ (read_arch-Reads h.arch) (
                      Reads-bind _ (read_be-Reads 1 h.name_length v.name_fits) (
                        Reads-bind _ (bytes-Reads h.name v.name_counted) (
                          Reads-bind _ (read_be-Reads 1 h.tag_length v.tag_fits) (
                            Reads-bind _ (bytes-Reads h.tag v.tag_counted) (
                              Reads-bind _ (bytes-Reads h.content_id v.content_id_long) (
                                Reads-bind _ (bytes-Reads h.directory_nonce v.nonce_long) (
                                  Reads-bind _ (read_be-Reads 8 h.directory_offset v.offset_fits) (
                                    Reads-last _ (read_be-Reads 4 h.directory_size v.directory_fits)
                                      refl)))))))))))))))))

nonce-Reads : (n : List ℕ) → IsNonce n → Reads (read_exact 12) (write_nonce n) n
unfolding write_nonce
nonce-Reads n h = bytes-Reads n h

pub read_protected-Reads :
    (h : ProtectedHeader) → IsProtected h → Reads read_protected (write_protected h) h
unfolding read_protected write_protected
read_protected-Reads h v = Reads-bind _ (read_be-Reads 4 h.block_size v.block_size_fits) (
    Reads-bind _ (read_be-Reads 4 h.cluster_count v.cluster_count_fits) (
      Reads-bind _ (read_compression-Reads h.cluster_compression) (
        Reads-bind _ (read_cluster_encryption-Reads h.cluster_encryption) (
          Reads-bind _
            (count-Reads (read_exact 12) write_nonce IsNonce nonce-Reads h.nonce_table
              v.nonces_counted v.nonces_long)
            (Reads-last _ (bytes-Reads h.cluster_key v.key_long) refl)))))

pub read_directory-Reads :
    (h : Directory) → IsDirectory h → Reads read_directory (write_directory h) h
unfolding read_directory write_directory
read_directory-Reads h v = Reads-bind _ (bytes-Reads h.protected_nonce v.protected_nonce_long) (
    Reads-bind _ (read_be-Reads 4 h.protected_size v.protected_fits) (
      Reads-bind _ (bytes-Reads h.digest_table_nonce v.digest_nonce_long) (
        Reads-bind _ (read_be-Reads 8 h.digest_table_offset v.offset_fits)
          (Reads-last _ (read_be-Reads 4 h.digest_table_size v.digest_fits) refl))))

pub read_entry-Reads : (h : DigestTableEntry) → IsEntry h → Reads read_entry (write_entry h) h
unfolding read_entry write_entry
read_entry-Reads h v = Reads-bind _ (read_be-Reads 8 h.cluster_offset v.cluster_fits) (
    Reads-bind _ (read_be-Reads 8 h.block_offset v.block_fits)
      (Reads-last _ (bytes-Reads h.digest v.digest_long) refl))

pub read_digest_table-Reads :
    (h : DigestTable) → IsDigestTable h → Reads read_digest_table (write_digest_table h) h
unfolding read_digest_table write_digest_table
read_digest_table-Reads h v = Reads-bind _ (read_be-Reads 4 h.digest_count v.count_fits) (
    Reads-last _
      (count-Reads read_entry write_entry IsEntry read_entry-Reads h.digest_table v.counted
        v.entries_valid)
      refl)

pub read_cluster-Reads : (h : Cluster) → IsCluster h → Reads read_cluster (write_cluster h) h
unfolding read_cluster write_cluster
read_cluster-Reads h v =
    Reads-bind _ (read_be-Reads 4 h.size v.size_fits)
      (Reads-last _ (bytes-Reads h.bytes v.counted) refl)

-- A primary header of version 2 whose counts equal the lengths they stand for, and whose integers fit
-- their widths, is read back from its bytes, and what follows is left.
pub read_primary-write_primary :
    (h : PrimaryHeader) (rest : List ℕ)
    → IsPrimary h
    → read_primary (write_primary h ++ rest) ≡ ok (h, rest)
read_primary-write_primary h rest v = (read_primary-Reads h v).apply rest

-- A protected header whose nonce table has the count that its cluster encryption asks for, with
-- 12-byte nonces, a 32-byte key and integers in range, is read back from its bytes, and what follows
-- is left.
pub read_protected-write_protected :
    (p : ProtectedHeader) (rest : List ℕ)
    → IsProtected p
    → read_protected (write_protected p ++ rest) ≡ ok (p, rest)
read_protected-write_protected p rest v = (read_protected-Reads p v).apply rest

-- A directory with 12-byte nonces and integers in range is read back from its bytes, and what follows
-- is left.
pub read_directory-write_directory :
    (d : Directory) (rest : List ℕ)
    → IsDirectory d
    → read_directory (write_directory d ++ rest) ≡ ok (d, rest)
read_directory-write_directory d rest v = (read_directory-Reads d v).apply rest

-- A digest table whose count is the number of its entries, with 32-byte digests and integers in range,
-- is read back from its bytes, and what follows is left.
pub read_digest_table-write_digest_table :
    (t : DigestTable) (rest : List ℕ)
    → IsDigestTable t
    → read_digest_table (write_digest_table t ++ rest) ≡ ok (t, rest)
read_digest_table-write_digest_table t rest v = (read_digest_table-Reads t v).apply rest
