-- ===== src/Gui/Tests.antt =====
-- The progress of an image of two blocks, of which one is on the disk already.
use goldboot.Base.{
  ℕ, ◌+◌, ◌*◌, ◌≡◌, refl, true, false, List, [], ◌∷◌, ◌++◌, none, some, replicate, take, arith, ok,
  map, ◌>>=◌, read_be, read_exact, be_bytes, of_be, write_at,
}
use goldboot.Crates.{Crates}
use goldboot.Format.{
  ImageArch, ClusterCompressionType, ClusterEncryptionType, HeaderEncryptionType, ProtectedHeader,
  DigestTableEntry, DigestTable,
}
use goldboot.Format.Write.{write_cluster}
use goldboot.Format.Read.{read_cluster}
use goldboot.Handle.{ImageHandle}
use goldboot.Apply.{
  Dest, truncate, extend, put, block_hash, ordinal, or_insert, ordinals_from,
  build_cluster_ordinal_map, decode_cluster, decrypt_cluster, decompress_cluster, Progress, Writing,
  fetch_block, is_dirty, write_entry, write_entries, write, verify,
}
use goldboot.Gui.Progress.{
  pending, WriteProgress, new_progress, record_cluster, record_verify_cluster, record_all,
  blocks_processed, blocks_written, blocks_up_to_date, blocks_verified, blocks_failed,
  reset_for_verify,
}
use goldboot.Gui.Progress.Writes.{record_cluster_complete}
use goldboot.Gui.Progress.Verifies.{verdict, record_verify_cluster-verdicts}

abbrev crates : Crates
crates = record {
  sha256 = λ bytes. take 32 (1 ∷ (bytes ++ replicate 32 0));
  encrypt = λ key nonce plain. some plain;
  decrypt = λ key nonce sealed. some sealed;
  zstd_encode = λ bytes. some bytes;
  zstd_decode = λ bytes. some bytes;
  zlib_take = λ n bytes. some (take n bytes);
  zstd_take = λ n bytes. some (take n bytes);
  hex_encode = λ bytes. bytes;
}

abbrev first : List ℕ
first = 5 ∷ 6 ∷ 7 ∷ 8 ∷ []

abbrev image : List ℕ
image = write_cluster (record { size = 4; bytes = first })

abbrev entry : ℕ → DigestTableEntry
entry offset = record { cluster_offset = 0; block_offset = offset; digest = crates.sha256 first }

abbrev table : DigestTable
table = record { digest_count = 2; digest_table = entry 0 ∷ entry 4 ∷ [] }

abbrev protected : ProtectedHeader
protected = record {
  block_size = 4;
  cluster_count = 2;
  cluster_compression = ClusterCompressionType.none;
  cluster_encryption = ClusterEncryptionType.none;
  nonce_table = [];
  cluster_key = [];
}

abbrev handle : ImageHandle
handle = record {
  primary_header = record {
    version = 2;
    size = 8;
    timestamp = 0;
    encryption_type = HeaderEncryptionType.none;
    element_count = 0;
    elements = [];
    arch = ImageArch.amd64;
    name_length = 0;
    name = [];
    tag_length = 0;
    tag = [];
    content_id = [];
    directory_nonce = [];
    directory_offset = 0;
    directory_size = 0;
  };
  protected_header = some protected;
  digest_table = some table;
  directory = none;
  file_size = 0;
  id = [];
}

abbrev disk : Dest
disk = record { is_file = false; content = first ++ (0 ∷ 0 ∷ 0 ∷ 0 ∷ []) }

abbrev after : Writing
after = record {
  dest = record { is_file = false; content = first ++ first };
  progress = (0, some false) ∷ (1, none) ∷ (1, some true) ∷ [];
}

runs : write crates image handle disk ≡ ok after
unfolding write write_entries write_entry is_dirty block_hash fetch_block read_cluster write_cluster
    decode_cluster decrypt_cluster decompress_cluster ◌>>=◌ read_be read_exact be_bytes of_be
    build_cluster_ordinal_map ordinals_from or_insert ordinal truncate extend put write_at
runs = refl

record_cluster_complete_example :
    (p : WriteProgress) × (record_all record_cluster after.progress (new_progress 2 4) ≡ ok p)
    × (blocks_processed p ≡ 2)
    × (blocks_written p + blocks_up_to_date p ≡ 2)
    × (p.bytes_read_total ≡ 2 * 4)
    × (p.bytes_written_total ≡ blocks_written p * 4)
record_cluster_complete_example =
    record_cluster_complete crates image handle disk protected table after refl refl refl runs
      (omega arith)

-- The disk of before the write, verified: the second block fails.
abbrev start : WriteProgress
start = record {
  cluster_count = 2;
  block_size = 4;
  block_states = pending ∷ pending ∷ [];
  done = false;
  verifying = false;
  verify_only = true;
  expanding_fs = false;
  post_write_dialog = none;
  error = none;
  bytes_read_total = 8;
  bytes_written_total = 0;
}

record_verify_cluster-verdicts_example :
    (told : Progress) × (p : WriteProgress) × (verify crates handle disk ≡ ok told)
    × (record_all record_verify_cluster told (reset_for_verify start) ≡ ok p)
    × (p.block_states ≡ map (verdict crates protected disk) table.digest_table)
    × (blocks_verified p + blocks_failed p ≡ 2)
    × (p.bytes_read_total ≡ 8 + 2 * 4)
record_verify_cluster-verdicts_example =
    record_verify_cluster-verdicts crates handle disk protected table start refl refl refl
      (omega arith)
