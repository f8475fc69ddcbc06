-- ===== src/Apply/Tests.antt =====
-- Small images on small disks. The third-party functions are stand-ins: the hash of a block has a
-- leading 1, and nothing is compressed or encrypted.
use goldboot.Base.{
  ℕ, ◌≡◌, ◌≢◌, refl, ap, ◌∙◌, Bool, true, false, List, [], ◌∷◌, ◌++◌, Option, none, some, replicate,
  take, get_or, arith, length, ok, map, All, ◌>>=◌, read_be, read_exact, be_bytes, of_be,
}
use goldboot.Crates.{Crates}
use goldboot.Format.{
  ImageArch, ClusterCompressionType, ClusterEncryptionType, HeaderEncryptionType, ProtectedHeader,
  DigestTableEntry, DigestTable,
}
use goldboot.Format.Write.{write_cluster}
use goldboot.Format.Read.{read_cluster}
use goldboot.Handle.{ImageHandle}
use goldboot.Apply.Target.{Dest, zero_hash}
use goldboot.Apply.Ordinals.{ordinal, or_insert, ordinals_from, build_cluster_ordinal_map}
use goldboot.Apply.Decode.{decode_cluster, decrypt_cluster, decompress_cluster}
use goldboot.Apply.Write.{Writing, tell, fetch_block, write}
use goldboot.Apply.Verify.{verify}
use goldboot.Apply.Distinct.{AreDistinct}
use goldboot.Apply.Stream.{is_seen, unique_from, unique_offsets}
use goldboot.Apply.Order.{HasOrdinal, build_cluster_ordinal_map-HasOrdinal, ordinal_injective}
use goldboot.Apply.Restores.{Block, entry_of, write_blocks, Shows, IsStored, write_restores}
use goldboot.Apply.Verified.{all_confirmed, verify_confirms, verify_rejects_cut_block}

abbrev crates : Crates
crates = record {
  sha256 = λ bytes. take 32 (1 ∷ (bytes ++ replicate 32 0));
  encrypt = λ key nonce plain. some plain;
  decrypt = λ key nonce sealed. some sealed;
  zstd_encode = λ bytes. some bytes;
  zstd_decode = λ bytes. some bytes;
  zlib_take = λ n bytes. some (take n bytes);
  zstd_take = λ n bytes. some (take n bytes);
  hex_encode = λ bytes. bytes;
}

abbrev first : List ℕ
first = 5 ∷ 6 ∷ 7 ∷ 8 ∷ []

abbrev second : List ℕ
second = 9 ∷ 9 ∷ []

-- Two blocks of 4 bytes at 0 and 8, one of 2 bytes at 12; the first two share a cluster.
abbrev image : List ℕ
image =
    write_cluster (record { size = 4; bytes = first })
    ++ write_cluster (record { size = 2; bytes = second })

abbrev entry : ℕ → ℕ → List ℕ → DigestTableEntry
entry at offset bytes = record {
  cluster_offset = at;
  block_offset = offset;
  digest = crates.sha256 bytes;
}

abbrev blocks : List Block
blocks = (entry 0 0 first, first) ∷ (entry 0 8 first, first) ∷ (entry 8 12 second, second) ∷ []

abbrev table : DigestTable
table = record { digest_count = 3; digest_table = map entry_of blocks }

abbrev protected : ProtectedHeader
protected = record {
  block_size = 4;
  cluster_count = 2;
  cluster_compression = ClusterCompressionType.none;
  cluster_encryption = ClusterEncryptionType.none;
  nonce_table = [];
  cluster_key = [];
}

abbrev handle : ℕ → DigestTable → ImageHandle
handle size t = record {
  primary_header = record {
    version = 2;
    size = size;
    timestamp = 0;
    encryption_type = HeaderEncryptionType.none;
    element_count = 0;
    elements = [];
    arch = ImageArch.amd64;
    name_length = 0;
    name = [];
    tag_length = 0;
    tag = [];
    content_id = [];
    directory_nonce = [];
    directory_offset = 0;
    directory_size = 0;
  };
  protected_header = some protected;
  digest_table = some t;
  directory = none;
  file_size = 0;
  id = [];
}

abbrev old_disk : Dest
old_disk = record { is_file = true; content = 3 ∷ 3 ∷ [] }

hash_ne_zero : (x : List ℕ) → crates.sha256 x ≢ zero_hash
hash_ne_zero x e = absurd (omega (arith, ap (λ (h : List ℕ). get_or h 0 0) e))

build_cluster_ordinal_map-HasOrdinal_example :
    All (HasOrdinal (build_cluster_ordinal_map table.digest_table) (0 ∷ 8 ∷ [])) table.digest_table
    × AreDistinct (0 ∷ 8 ∷ [])
unfolding unique_offsets unique_from is_seen
build_cluster_ordinal_map-HasOrdinal_example =
    build_cluster_ordinal_map-HasOrdinal table.digest_table

second_ordinal : ordinal 8 (build_cluster_ordinal_map table.digest_table) ≡ some 1
unfolding build_cluster_ordinal_map ordinals_from or_insert ordinal
second_ordinal = refl

ordinal_injective_example : ◌≡◌ {A = ℕ} 8 8
ordinal_injective_example = ordinal_injective table.digest_table 8 8 1 second_ordinal second_ordinal

fetches :
    All
      (λ b.
        fetch_block crates protected (build_cluster_ordinal_map table.digest_table) image b.0
        ≡ ok b.1)
      blocks
unfolding fetch_block read_cluster write_cluster decode_cluster decrypt_cluster decompress_cluster
    ◌>>=◌ read_be read_exact be_bytes of_be
fetches = (refl, (refl, (refl, tt)))

block-IsStored :
    (b : Block)
    → fetch_block crates protected (build_cluster_ordinal_map table.digest_table) image b.0 ≡ ok b.1
    → crates.sha256 b.1 ≡ b.0.digest
    → IsStored crates protected (build_cluster_ordinal_map table.digest_table) image b
block-IsStored b f h = record { fetched = f; hashed = h; nonzero = λ e. hash_ne_zero b.1 (h ∙ e) }

write_restores_example :
    (w : Writing) × (write crates image (handle 14 table) old_disk ≡ ok w)
    × (w.dest.content ≡ write_blocks blocks (replicate 14 0))
    × (length w.dest.content ≡ 14)
    × Shows w.dest.content blocks
write_restores_example =
    write_restores crates image (handle 14 table) old_disk blocks protected table refl refl refl
      refl
      (
        block-IsStored (entry 0 0 first, first) fetches.0 refl,
        (
          block-IsStored (entry 0 8 first, first) fetches.1.0 refl,
          (block-IsStored (entry 8 12 second, second) fetches.1.1.0 refl, tt),
        ),
      )
      (
        omega arith,
        omega arith,
        omega arith,
        (omega arith, omega arith, omega arith, (omega arith, omega arith, omega arith, tt)),
      )
      (
        λ e. absurd (omega (arith, ap (λ (h : List ℕ). get_or h 1 0) e)),
        (
          λ e. absurd (omega (arith, ap (λ (h : List ℕ). get_or h 1 0) e)),
          (λ e. absurd (omega (arith, ap (λ (h : List ℕ). get_or h 1 0) e)), tt),
        ),
      )

abbrev whole_blocks : List Block
whole_blocks = (entry 0 0 first, first) ∷ (entry 0 8 first, first) ∷ []

abbrev whole_table : DigestTable
whole_table = record { digest_count = 2; digest_table = map entry_of whole_blocks }

abbrev written_disk : Dest
written_disk = record { is_file = false; content = first ++ (0 ∷ 0 ∷ 0 ∷ 0 ∷ []) ++ first }

verify_confirms_example :
    verify crates (handle 12 whole_table) written_disk
    ≡ ok (all_confirmed 0 whole_table.digest_table [])
verify_confirms_example =
    verify_confirms crates (handle 12 whole_table) written_disk whole_blocks protected whole_table
      refl refl refl (refl, refl, (refl, refl, tt))
      (omega arith, omega arith, omega arith, (omega arith, omega arith, omega arith, tt))
      (refl, (refl, tt))

verify_rejects_cut_block_example :
    (before : List (ℕ × Option Bool)) × (verify crates
        (handle 14 table)
        (record { is_file = true; content = replicate 14 9 })
      ≡ ok (tell 2 (some false) before))
verify_rejects_cut_block_example =
    verify_rejects_cut_block crates (handle 14 table)
      (record { is_file = true; content = replicate 14 9 }) (entry 0 0 first ∷ entry 0 8 first ∷ [])
      (entry 8 12 second) protected table refl refl refl (hash_ne_zero second) (omega arith)
      (omega arith)
