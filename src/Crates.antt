-- ===== src/Crates.antt =====
-- The third-party code that goldboot-image calls: `sha2`, `aes-gcm`, `zstd`, `flate2` and `hex`. It is a
-- parameter of the model. `Crates` has the functions, `AreLawful` what their documentation promises.
use goldboot.Base.{ℕ, ◌≡◌, ◌≤◌, List, Option, some, length}

pub record Crates : Type 0 where
  -- `Sha256::new().chain_update(bytes).finalize()`.
  pub sha256 : List ℕ → List ℕ
  -- `Aes256Gcm::new(key).encrypt(nonce, plain)` and `decrypt`; `none` is an error.
  pub encrypt : List ℕ → List ℕ → List ℕ → Option (List ℕ)
  pub decrypt : List ℕ → List ℕ → List ℕ → Option (List ℕ)
  -- `zstd::encode_all(bytes, 0)` and `zstd::decode_all(bytes)`.
  pub zstd_encode : List ℕ → Option (List ℕ)
  pub zstd_decode : List ℕ → Option (List ℕ)
  -- `flate2::read::ZlibDecoder::new(bytes).take(n).read_to_end(..)`, and `zstd::Decoder` so.
  pub zlib_take : ℕ → List ℕ → Option (List ℕ)
  pub zstd_take : ℕ → List ℕ → Option (List ℕ)
  -- `hex::encode`.
  pub hex_encode : List ℕ → List ℕ

pub record AreLawful (c : Crates) : Type 0 where
  pub decrypt-encrypt :
      (key nonce plain sealed : List ℕ)
      → c.encrypt key nonce plain ≡ some sealed
      → c.decrypt key nonce sealed ≡ some plain
  pub decode-encode :
      (plain packed : List ℕ)
      → c.zstd_encode plain ≡ some packed
      → c.zstd_decode packed ≡ some plain
  pub length-zlib_take :
      (n : ℕ) (bytes out : List ℕ) → c.zlib_take n bytes ≡ some out → length out ≤ n
  pub length-zstd_take :
      (n : ℕ) (bytes out : List ℕ) → c.zstd_take n bytes ≡ some out → length out ≤ n
  pub length-sha256 : (bytes : List ℕ) → length (c.sha256 bytes) ≡ 32

-- `new_key`: the AES key of a password is its SHA-256.
pub new_key : Crates → List ℕ → List ℕ
new_key c password = c.sha256 password
