-- ===== src/Qcow/Tests.antt =====
-- A cluster of a small source file.
use goldboot.Base.{ℕ, ◌≡◌, refl, true, false, List, [], ◌∷◌, some, take, ok}
use goldboot.Crates.{Crates}
use goldboot.Qcow.Header.{CompressionType}
use goldboot.Qcow.Levels.{
  L2Entry, ClusterDescriptor, is_allocated, read_contents, descriptor_contents,
}
use goldboot.Qcow.Allocation.{read_contents-is_allocated}

abbrev crates : Crates
crates = record {
  sha256 = λ bytes. bytes;
  encrypt = λ key nonce plain. some plain;
  decrypt = λ key nonce sealed. some sealed;
  zstd_encode = λ bytes. some bytes;
  zstd_decode = λ bytes. some bytes;
  zlib_take = λ n bytes. some (take n bytes);
  zstd_take = λ n bytes. some (take n bytes);
  hex_encode = λ bytes. bytes;
}

abbrev entry : L2Entry
entry = record {
  cluster_descriptor =
      ClusterDescriptor.standard (record { all_zeroes = false; host_cluster_offset = 2 });
  is_compressed = false;
  is_used = true;
}

abbrev file : List ℕ
file = 0 ∷ 0 ∷ 5 ∷ 6 ∷ 7 ∷ 8 ∷ []

entry_read : read_contents crates file 4 CompressionType.zlib entry ≡ ok (some (5 ∷ 6 ∷ 7 ∷ 8 ∷ []))
unfolding read_contents descriptor_contents
entry_read = refl

read_contents-is_allocated_example : is_allocated entry ≡ true
read_contents-is_allocated_example =
    read_contents-is_allocated crates file 4 CompressionType.zlib entry (some (5 ∷ 6 ∷ 7 ∷ 8 ∷ []))
      entry_read
