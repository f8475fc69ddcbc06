-- ===== src/Convert/Tests.antt =====
-- A small qcow2 disk, converted with encryption and written back. The third-party functions are
-- stand-ins: the hash of a block is made of the sum of its bytes, compression and encryption put a byte
-- in front.
use goldboot.Base.{
  ℕ, zero, suc, ◌+◌, ◌≡◌, ◌≤◌, ◌<◌, ◌⊎◌, refl, sym, ap, ◌∙◌, true, List, [], ◌∷◌, ◌++◌, Option,
  none, some, replicate, take, drop, get_or, get_elem?, arith, length, length-take,
  length-replicate, Result, is_ok, subst, ok, err, All, inl, inr, slice, ◌>>=◌, read_be, read_count,
  of_be,
}
use goldboot.Crates.{new_key, Crates, AreLawful}
use goldboot.Handle.{cluster_region_bounds, compute_content_id}
use goldboot.Format.Write.{write_protected, write_all, write_nonce}
use goldboot.Convert.ContentId.{from_qcow-content_id}
use goldboot.Convert.Runs.{ok_eq}
use goldboot.Base.{be_bytes, ◌^◌}
use goldboot.Format.{ProtectedHeader}
use goldboot.Qcow.{
  Qcow3, CompressionType, cluster_size, l2_entries_per_cluster, count_clusters, count_table,
  count_allocated, is_allocated, read_l2, read_contents, descriptor_contents, l2_from_u64,
  l2_offset,
}
use goldboot.Format.{ClusterCompressionType, ClusterEncryptionType}
use goldboot.Reference.{validate_ref_segment, check_bytes}
use goldboot.Handle.{ImageHandle}
use goldboot.Apply.{Dest, Writing, write}
use goldboot.Convert.{
  Draws, Conversion, compress, encrypt_cluster, nonce_at, initial_primary, initial_protected,
  initial_conversion, truncate_block, convert_l1, convert_image, seal_section, convert_body,
  convert_table, convert_l2, convert_contents, convert_block, convert_plain, share_cluster,
  store_cluster, advance, find_digest, pop, record_cluster, record_share, finish, finish_directory,
  from_qcow,
}
use goldboot.Convert.Counted.{length-disk_blocks}
use goldboot.Convert.Counters.{convert_l1_counts}
use goldboot.Convert.EndToEnd.{from_qcow_restores}
use goldboot.Apply.{build_cluster_ordinal_map}
use goldboot.Convert.Restores.{ShowsDisk, NoBlankCollision}
use goldboot.Convert.Represents.{IsStorable}
use goldboot.Convert.Restores.{AreStorable}
use goldboot.Convert.Blocks.{DiskBlock, blocks_l2, blocks_l1, disk_blocks}

abbrev total : List ℕ → ℕ
total [] = 0
total (x ∷ xs) = x + total xs

abbrev uncover : List ℕ → Option (List ℕ)
uncover [] = none
uncover (x ∷ xs) = some xs

abbrev crates : Crates
crates = record {
  sha256 = λ bytes. replicate 32 (1 + total bytes);
  encrypt = λ key nonce plain. some (7 ∷ plain);
  decrypt = λ key nonce sealed. uncover sealed;
  zstd_encode = λ bytes. some (9 ∷ bytes);
  zstd_decode = uncover;
  zlib_take = λ n bytes. some (take n bytes);
  zstd_take = λ n bytes. some (take n bytes);
  hex_encode = λ bytes. bytes;
}

some_eq {ℓ} : {A : Type ℓ} {a b : A} → some a ≡ some b → a ≡ b
some_eq h = cc

take_short : (n : ℕ) (bytes out : List ℕ) → some (take n bytes) ≡ some out → length out ≤ n
take_short n bytes out e = omega (arith, ap length (some_eq e), length-take n bytes)

crates-AreLawful : AreLawful crates
crates-AreLawful = record {
  decrypt-encrypt = λ key nonce plain sealed e. sym (ap uncover (some_eq e));
  decode-encode = λ plain packed e. sym (ap uncover (some_eq e));
  length-zlib_take = take_short;
  length-zstd_take = take_short;
  length-sha256 = λ bytes. refl;
}

-- Clusters of 16 bytes, so L2 tables of two entries. Both L1 entries name one table, which names one
-- cluster twice; the disk ends in the middle of the fourth cluster.
abbrev data_bytes : List ℕ
data_bytes = 1 ∷ 2 ∷ 3 ∷ 4 ∷ 5 ∷ 6 ∷ 7 ∷ 8 ∷ 9 ∷ 10 ∷ 11 ∷ 12 ∷ 13 ∷ 14 ∷ 15 ∷ 16 ∷ []

abbrev l2_bytes : List ℕ
l2_bytes = 128 ∷ 0 ∷ 0 ∷ 0 ∷ 0 ∷ 0 ∷ 4 ∷ 0 ∷ 128 ∷ 0 ∷ 0 ∷ 0 ∷ 0 ∷ 0 ∷ 4 ∷ 0 ∷ []

abbrev source : List ℕ
source = replicate 512 0 ++ (l2_bytes ++ (replicate 496 0 ++ data_bytes))

abbrev qcow : Qcow3
qcow = record {
  header = record {
    version = 3;
    cluster_bits = 4;
    size = 56;
    l1_size = 2;
    l1_table_offset = 0;
    nb_snapshots = 0;
    snapshots_offset = 0;
    header_len = 104;
    compression_type = CompressionType.zlib;
  };
  snapshots = [];
  l1_table = 512 ∷ 512 ∷ [];
}

abbrev cut_bytes : List ℕ
cut_bytes = 1 ∷ 2 ∷ 3 ∷ 4 ∷ 5 ∷ 6 ∷ 7 ∷ 8 ∷ []

abbrev items : List DiskBlock
items = (0, data_bytes) ∷ (16, data_bytes) ∷ (32, data_bytes) ∷ (48, cut_bytes) ∷ []

items_read : disk_blocks crates source qcow ≡ ok items
unfolding disk_blocks blocks_l1 blocks_l2 read_l2 read_count ◌>>=◌ read_be read_contents
    descriptor_contents l2_from_u64 of_be truncate_block cluster_size l2_entries_per_cluster
items_read = refl

abbrev draws : Draws
draws = record {
  protected_nonce = replicate 12 1;
  digest_table_nonce = replicate 12 2;
  directory_nonce = replicate 12 3;
  cluster_key = replicate 32 4;
  nonces = λ n. replicate n (replicate 12 5);
  timestamp = 1700000000;
}

abbrev password : Option (List ℕ)
password = some (b's' ∷ [])

abbrev protected : ProtectedHeader
protected = record {
  block_size = 16;
  cluster_count = 4;
  cluster_compression = ClusterCompressionType.zstd;
  cluster_encryption = ClusterEncryptionType.aes256;
  nonce_table = replicate 4 (replicate 12 5);
  cluster_key = replicate 32 4;
}

count_four : count_clusters source qcow ≡ 4
unfolding count_clusters count_table count_allocated is_allocated read_l2 read_count ◌>>=◌ read_be
    l2_from_u64 of_be
count_four = refl

protected_made : initial_protected source qcow password draws ≡ protected
unfolding initial_protected count_clusters count_table count_allocated is_allocated read_l2
    read_count ◌>>=◌ read_be l2_from_u64 of_be cluster_size
protected_made = refl

-- The two blocks that the disk has.
abbrev Known : List ℕ → Type 0
Known x = (x ≡ data_bytes) ⊎ (x ≡ cut_bytes)

known_short : (x : List ℕ) → Known x → length x ≤ 16
known_short x (inl e) = omega (arith, ap length e)
known_short x (inr e) = omega (arith, ap length e)

nonce_there :
    (nonces : List (List ℕ)) (i : ℕ)
    → i < length nonces
    → (n : List ℕ) × (get_elem? nonces i ≡ some n)
nonce_there [] i h = absurd (omega arith)
nonce_there (n ∷ nonces) zero h = (n, refl)
nonce_there (n ∷ nonces) (suc i) h = nonce_there nonces i (omega arith)

known-IsStorable : (x : List ℕ) → Known x → IsStorable crates protected x
unfolding compress encrypt_cluster
known-IsStorable x k = record {
  packed = 9 ∷ x;
  packs = refl;
  seals = λ nonces i h.
      let (n, there) = nonce_there nonces i h in
      let short = known_short x k in (7 ∷ 9 ∷ x, rw (nonce_at, there) refl, omega arith);
}

sums : (x y : List ℕ) → crates.sha256 x ≡ crates.sha256 y → total x ≡ total y
sums x y e = omega (arith, ap (λ (h : List ℕ). get_or h 0 0) e)

known_distinct : (x y : List ℕ) → Known x → Known y → crates.sha256 x ≡ crates.sha256 y → x ≡ y
known_distinct x y (inl e) (inl e') h = e ∙ sym e'
known_distinct x y (inr e) (inr e') h = e ∙ sym e'
known_distinct x y (inl e) (inr e') h = absurd (omega (arith, sums x y h, ap total e, ap total e'))
known_distinct x y (inr e) (inl e') h = absurd (omega (arith, sums x y h, ap total e, ap total e'))

known-AreStorable : AreStorable crates protected Known
known-AreStorable = record {
  storable = known-IsStorable;
  distinct = known_distinct;
  nonzero = λ x k e. absurd (omega (arith, ap (λ (h : List ℕ). get_or h 0 0) e));
}

total-take : (n : ℕ) (xs : List ℕ) → total (take n xs) ≤ total xs
total-take zero xs = omega arith
total-take (suc n) [] = omega arith
total-take (suc n) (x ∷ xs) = omega (arith, total-take n xs)

total-drop : (n : ℕ) (xs : List ℕ) → total (drop n xs) ≤ total xs
total-drop zero xs = omega arith
total-drop (suc n) [] = omega arith
total-drop (suc n) (x ∷ xs) = omega (arith, total-drop n xs)

zeros_total : (off : ℕ) → total (slice off 16 (replicate 56 0)) ≡ 0
zeros_total off =
    let whole : total (replicate 56 0) ≡ 0 = refl in
    omega (arith, whole, total-take 16 (drop off (replicate 56 0)), total-drop off (replicate 56 0))

no_blank_collision : NoBlankCollision crates Known 16 56
no_blank_collision off x (inl e) h = absurd (omega (arith, zeros_total off, sums _ x h, ap total e))
no_blank_collision off x (inr e) h = absurd (omega (arith, zeros_total off, sums _ x h, ap total e))

length-disk_blocks_example : length items ≡ count_clusters source qcow
length-disk_blocks_example = length-disk_blocks crates source qcow items items_read

abbrev known_items : All (λ i. Known i.1) items
known_items = (inl refl, (inl refl, (inl refl, (inr refl, tt))))

convert_l1_counts_example :
    (s : Conversion) × (convert_l1 crates ClusterCompressionType.zstd ClusterEncryptionType.aes256
        (replicate 32 4)
        source
        qcow
        (512 ∷ 512 ∷ [])
        (initial_conversion (1 ∷ 2 ∷ 3 ∷ []) protected)
      ≡ ok s)
    × (length s.entries ≡ 4)
    × (s.cluster_count ≡ s.ordinal)
    × (s.ordinal ≡ length (build_cluster_ordinal_map s.entries))
    × (length s.nonce_table ≡ s.cluster_count)
convert_l1_counts_example =
    convert_l1_counts crates protected Known source qcow items (1 ∷ 2 ∷ 3 ∷ []) crates-AreLawful
      known-AreStorable items_read known_items (sym count_four) refl

abbrev result_or {ℓ} : {A : Type ℓ} → A → Result A → A
result_or a (ok b) = b
result_or a (err e) = a

abbrev blank_handle : ImageHandle
blank_handle = record {
  primary_header = initial_primary [] [] [] qcow password draws;
  protected_header = none;
  digest_table = none;
  directory = none;
  file_size = 0;
  id = [];
}

abbrev conversion : Result (List ℕ × ImageHandle)
conversion = from_qcow crates (b'v' ∷ b'm' ∷ []) (b'1' ∷ []) [] source qcow password draws

abbrev image : List ℕ × ImageHandle
image = result_or ([], blank_handle) conversion

conversion_ok : is_ok conversion ≡ true
unfolding from_qcow validate_ref_segment check_bytes convert_image seal_section initial_primary
    initial_protected convert_body initial_conversion convert_l1 convert_table convert_l2
    convert_contents convert_block convert_plain share_cluster store_cluster advance compress
    encrypt_cluster find_digest pop record_cluster record_share truncate_block finish
    finish_directory read_l2 read_count ◌>>=◌ read_be of_be read_contents descriptor_contents
    l2_from_u64 l2_offset count_clusters count_table count_allocated is_allocated cluster_size
    l2_entries_per_cluster
conversion_ok = refl

is_ok-result_or {ℓ} : {A : Type ℓ} (a : A) (r : Result A) → is_ok r ≡ true → r ≡ ok (result_or a r)
is_ok-result_or a (ok b) h = refl
is_ok-result_or a (err e) h = cc

image_made : conversion ≡ ok (image.0, image.1)
image_made = is_ok-result_or ([], blank_handle) conversion conversion_ok

abbrev loaded_handle : ImageHandle
loaded_handle = record image.1 { protected_header = some protected }

abbrev old_disk : Dest
old_disk = record { is_file = true; content = 3 ∷ 3 ∷ [] }

from_qcow_restores_example :
    (w : Writing) × (write crates image.0 loaded_handle old_disk ≡ ok w)
    × (length w.dest.content ≡ 56)
    × ShowsDisk w.dest.content items
unfolding cluster_size
from_qcow_restores_example =
    from_qcow_restores crates Known (b'v' ∷ b'm' ∷ []) (b'1' ∷ []) [] source qcow password draws
      items image.0 image.1 loaded_handle old_disk crates-AreLawful
      (subst (λ p. AreStorable crates p Known) (sym protected_made) known-AreStorable)
      no_blank_collision items_read known_items (omega (arith, count_four)) (omega arith)
      (λ n. length-replicate n (replicate 12 5)) image_made refl refl (ap some (sym protected_made))
      refl

sealed_short :
    (bytes : List ℕ)
    → seal_section crates
        (initial_primary (b'v' ∷ b'm' ∷ []) (b'1' ∷ []) [] qcow password draws).encryption_type
        (new_key crates (b's' ∷ []))
        draws.protected_nonce
        (write_protected (initial_protected source qcow password draws))
      ≡ ok bytes
    → length bytes < 2 ^ 32
unfolding seal_section initial_primary write_protected write_all write_nonce be_bytes
sealed_short bytes e =
    let made : ok (7 ∷ write_protected protected) ≡ ok bytes =
      subst (λ p. ok (7 ∷ write_protected p) ≡ ok bytes) protected_made e in
    let long : length (write_protected protected) ≡ 90 = refl in
    omega (arith, ap length (ok_eq made), long)

from_qcow-content_id_example :
    (start : ℕ) × (end : ℕ) × (cluster_region_bounds image.1 ≡ ok (start, end))
    × (compute_content_id crates image.0 start end ≡ ok image.1.primary_header.content_id)
from_qcow-content_id_example =
    from_qcow-content_id crates Known (b'v' ∷ b'm' ∷ []) (b'1' ∷ []) [] source qcow password draws
      items image.0 image.1 crates-AreLawful
      (subst (λ p. AreStorable crates p Known) (sym protected_made) known-AreStorable) items_read
      known_items (omega (arith, count_four)) (λ n. length-replicate n (replicate 12 5))
      sealed_short image_made
