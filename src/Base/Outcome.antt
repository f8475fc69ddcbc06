-- ===== src/Base/Outcome.antt =====
-- Fallible code: `anyhow::Result` with a constructor for each cause, and its `?` as a bind.
use Prim.Native.Nat.{ℕ}
use mathlib.Core.Path.{◌≡◌, refl}
use mathlib.Core.Logic.{◌⊎◌, inl, inr}
use mathlib.Core.Bool.{Bool, true, false}

-- `unexpected_eof` is `read_exact`'s error. The others name the `bail!`, `context` or derived
-- check that raises them.
pub data Error : Type 0 where
  unexpected_eof bad_magic bad_version no_variant bad_utf8 write_failed seek_failed : Error
  too_long out_of_order short_read section_too_large cluster_too_large : Error
  decryption_failed decompression_failed encryption_failed : Error
  empty_segment segment_too_long reserved_segment : Error
  invalid_byte : ℕ → ℕ → Error
  missing_name scheme_without_host not_loaded malformed_image not_found : Error
  too_many_partitions outside_usable_range missing_tag : Error
  -- A panic of the program: an index out of bounds, or arithmetic overflow in a debug build.
  panicked : Error

pub data Result {ℓ} (A : Type ℓ) : Type ℓ where
  ok : A → Result A
  err : Error → Result A

abbrev pub bind {ℓ κ} : {A : Type ℓ} {B : Type κ} → Result A → (A → Result B) → Result B
bind (ok a) f = f a
bind (err e) f = err e

pub Result-cases {ℓ} :
    {A : Type ℓ} (r : Result A) → ((a : A) × (r ≡ ok a)) ⊎ ((e : Error) × (r ≡ err e))
Result-cases (ok a) = inl (a, refl)
Result-cases (err e) = inr (e, refl)

pub bind-eq-ok {ℓ κ} :
    {A : Type ℓ} {B : Type κ} (m : Result A) (f : A → Result B) {b : B}
    → bind m f ≡ ok b
    → (a : A) × (m ≡ ok a) × (f a ≡ ok b)
bind-eq-ok (ok a) f h = (a, refl, h)
bind-eq-ok (err e) f h = cc

-- Whether the call succeeded (`is_ok`).
abbrev pub is_ok {ℓ} : {A : Type ℓ} → Result A → Bool
is_ok (ok a) = true
is_ok (err e) = false
