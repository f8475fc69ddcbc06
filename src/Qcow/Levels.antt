-- ===== src/Qcow/Levels.antt =====
-- goldboot-image/src/qcow/levels.rs: L1 and L2 entries, and the contents of a cluster.
use goldboot.Base.{
  ℕ, ◌+◌, ◌-◌, ◌*◌, ◌/◌, ◌^◌, Bool, true, not, ◌&&◌, ◌||◌, List, map, Option, none, some, take,
  drop, replicate, bit_and, if◌then◌else◌, ◌==◌, Result, ok, err, read_count, read_be,
  decompression_failed,
}
use goldboot.Crates.{Crates}
use goldboot.Qcow.Header.{CompressionType}

pub record StandardClusterDescriptor : Type 0 where
  pub all_zeroes : Bool
  pub host_cluster_offset : ℕ

pub record CompressedClusterDescriptor : Type 0 where
  pub host_cluster_offset : ℕ
  pub additional_sector_count : ℕ

pub data ClusterDescriptor : Type 0 where
  standard : StandardClusterDescriptor → ClusterDescriptor
  compressed : CompressedClusterDescriptor → ClusterDescriptor

pub record L2Entry : Type 0 where
  pub cluster_descriptor : ClusterDescriptor
  pub is_compressed : Bool
  pub is_used : Bool

-- An L1 entry is its 64-bit word.
abbrev pub L1Entry : Type 0
L1Entry = ℕ

unfoldable pub l2_offset : L1Entry → ℕ
l2_offset x = bit_and x 0x00ff_ffff_ffff_fe00

unfoldable pub mask : ℕ → ℕ
mask bits = 2 ^ bits - 1

unfoldable pub standard_from_u64 : ℕ → StandardClusterDescriptor
standard_from_u64 x = record {
  all_zeroes = not (bit_and x 1 == 0);
  host_cluster_offset = bit_and x 0x00ff_ffff_ffff_fe00;
}

-- `!mask(bits)` on 64 bits is `2 ^ 64 - 1 - mask bits`, and `>>` divides.
unfoldable pub compressed_from_u64 : ℕ → ℕ → CompressedClusterDescriptor
unfolding mask
compressed_from_u64 x cluster_bits =
    let host_cluster_bits = 62 - (cluster_bits - 8) in
    record {
      host_cluster_offset = bit_and x (mask host_cluster_bits);
      additional_sector_count =
          bit_and x (2 ^ 64 - 1 - mask host_cluster_bits) / 2 ^ host_cluster_bits;
    }

unfoldable pub descriptor_from_u64 : Bool → ℕ → ℕ → ClusterDescriptor
unfolding standard_from_u64 compressed_from_u64
descriptor_from_u64 is_compressed x cluster_bits =
    if is_compressed
    then ClusterDescriptor.compressed (compressed_from_u64 x cluster_bits)
    else ClusterDescriptor.standard (standard_from_u64 x)

unfoldable pub l2_from_u64 : ℕ → ℕ → L2Entry
unfolding descriptor_from_u64
l2_from_u64 x cluster_bits =
    let is_compressed = not (bit_and x 0x4000_0000_0000_0000 == 0) in
    record {
      cluster_descriptor =
          descriptor_from_u64 is_compressed (bit_and x 0x3fff_ffff_ffff_ffff) cluster_bits;
      is_compressed = is_compressed;
      is_used = not (bit_and x 0x8000_0000_0000_0000 == 0);
    }

-- The value of a read, or nothing if it fails (`.ok()?`).
abbrev pub value_of {ℓ} : {A : Type ℓ} → Result (A × List ℕ) → Option A
value_of (ok (a, rest)) = some a
value_of (err e) = none

abbrev pub map_option {ℓ κ} : {A : Type ℓ} {B : Type κ} → (A → B) → Option A → Option B
map_option f none = none
map_option f (some a) = some (f a)

unfoldable pub read_l2 : List ℕ → ℕ → L1Entry → Option (List L2Entry)
unfolding l2_offset
read_l2 file cluster_bits x =
    if l2_offset x == 0
    then none
    else map_option (map (λ w. l2_from_u64 w cluster_bits))
        (value_of (read_count (2 ^ cluster_bits / 8) (read_be 8) (drop (l2_offset x) file)))

abbrev pub allocated : Bool → ClusterDescriptor → Bool
allocated is_used (ClusterDescriptor.standard d) =
    not (d.host_cluster_offset == 0) || (d.all_zeroes && is_used)
allocated is_used (ClusterDescriptor.compressed d) = true

unfoldable pub is_allocated : L2Entry → Bool
is_allocated e = allocated e.is_used e.cluster_descriptor

-- What a decoder delivered into `buf`, or its error.
abbrev pub delivered : Option (List ℕ) → Result (Option (List ℕ))
delivered none = err decompression_failed
delivered (some bytes) = ok (some bytes)

-- `reader.take(n).read_to_end(..)` delivers what there is, up to n bytes.
unfoldable pub descriptor_contents :
    Crates → List ℕ → ℕ → CompressionType → Bool → ClusterDescriptor → Result (Option (List ℕ))
descriptor_contents c file size comp_type is_used (ClusterDescriptor.standard d) =
    if d.all_zeroes && is_used
    then ok (some (replicate size 0))
    else if d.host_cluster_offset == 0
    then ok none
    else ok (some (take size (drop d.host_cluster_offset file)))
descriptor_contents c file size CompressionType.zlib is_used (ClusterDescriptor.compressed d) =
    delivered (
      c.zlib_take size
        (take ((d.additional_sector_count + 1) * 512) (drop d.host_cluster_offset file)))
descriptor_contents c file size CompressionType.zstd is_used (ClusterDescriptor.compressed d) =
    delivered (
      c.zstd_take size
        (take ((d.additional_sector_count + 1) * 512) (drop d.host_cluster_offset file)))

unfoldable pub read_contents :
    Crates → List ℕ → ℕ → CompressionType → L2Entry → Result (Option (List ℕ))
read_contents c file size comp_type e =
    descriptor_contents c file size comp_type e.is_used e.cluster_descriptor
