-- ===== src/Handle/Tests.antt =====
-- The hash of a region of a short file.
use goldboot.Base.{ok, arith, ◌≡◌, [], ◌∷◌, some, take}
use goldboot.Crates.{Crates}
use goldboot.Handle.{compute_content_id}
use goldboot.Handle.Region.{compute_content_id-slice}

abbrev crates : Crates
crates = record {
  sha256 = λ bytes. bytes;
  encrypt = λ key nonce plain. some plain;
  decrypt = λ key nonce sealed. some sealed;
  zstd_encode = λ bytes. some bytes;
  zstd_decode = λ bytes. some bytes;
  zlib_take = λ n bytes. some (take n bytes);
  zstd_take = λ n bytes. some (take n bytes);
  hex_encode = λ bytes. bytes;
}

compute_content_id-slice_example :
    compute_content_id crates (1 ∷ 2 ∷ 3 ∷ 4 ∷ []) 1 3 ≡ ok (2 ∷ 3 ∷ [])
compute_content_id-slice_example =
    compute_content_id-slice crates (1 ∷ 2 ∷ 3 ∷ 4 ∷ []) 1 3 (omega arith)
