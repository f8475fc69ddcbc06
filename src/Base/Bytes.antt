-- ===== src/Base/Bytes.antt =====
-- Bytes as numbers, and the fixed-width encodings `to_be_bytes` and `to_le_bytes`.
use Prim.Native.Nat.{ℕ, zero, suc, ◌+◌, ◌*◌, ◌/◌, ◌%◌, ◌^◌, ◌<◌}
use mathlib.Core.Path.{◌≡◌, refl, ap, ◌∙◌}
use mathlib.Core.List.{List, [], ◌∷◌, reverse, reverse-reverse, reverse-cons}
use native.Mathlib.Omega.{arith}
use native.Mathlib.Nat.{pow-suc}
use goldboot.Base.Lists.{length, length-reverse, All, All-append}

abbrev pub IsByte : ℕ → Type 0
IsByte b = b < 256

-- The k low bytes of n, lowest first.
unfoldable pub le_bytes : ℕ → ℕ → List ℕ
le_bytes zero n = []
le_bytes (suc k) n = (n % 256) ∷ le_bytes k (n / 256)

unfoldable pub of_le : List ℕ → ℕ
of_le [] = 0
of_le (b ∷ bs) = b + 256 * of_le bs

unfoldable pub be_bytes : ℕ → ℕ → List ℕ
unfolding le_bytes
be_bytes k n = reverse (le_bytes k n)

unfoldable pub of_be : List ℕ → ℕ
unfolding of_le
of_be bs = of_le (reverse bs)

pub length-le_bytes : (k n : ℕ) → length (le_bytes k n) ≡ k
unfolding le_bytes
length-le_bytes zero n = refl
length-le_bytes (suc k) n = ap suc (length-le_bytes k (n / 256))

pub length-be_bytes : (k n : ℕ) → length (be_bytes k n) ≡ k
unfolding be_bytes
length-be_bytes k n = length-reverse (le_bytes k n) ∙ length-le_bytes k n

pub of_le-le_bytes : (k n : ℕ) → n < 256 ^ k → of_le (le_bytes k n) ≡ n
unfolding le_bytes of_le
of_le-le_bytes zero n h = omega arith
of_le-le_bytes (suc k) n h =
    omega (arith, of_le-le_bytes k (n / 256) (omega (arith, pow-suc 256 k)))

pub of_be-be_bytes : (k n : ℕ) → n < 256 ^ k → of_be (be_bytes k n) ≡ n
unfolding be_bytes of_be
of_be-be_bytes k n h = rw reverse-reverse (of_le-le_bytes k n h)

-- A number read from k bytes fits k bytes, and its encoding is those bytes.
pub of_le_bound : (bs : List ℕ) → All IsByte bs → of_le bs < 256 ^ length bs
unfolding of_le
of_le_bound [] h = omega arith
of_le_bound (b ∷ bs) h = omega (arith, of_le_bound bs h.1, pow-suc 256 (length bs))

pub le_bytes-of_le : (bs : List ℕ) → All IsByte bs → le_bytes (length bs) (of_le bs) ≡ bs
unfolding of_le le_bytes
le_bytes-of_le [] h = refl
le_bytes-of_le (b ∷ bs) h = rw (low, high) (ap (λ (t : List ℕ). b ∷ t) (le_bytes-of_le bs h.1))
  where
    low : (b + 256 * of_le bs) % 256 ≡ b
    low = omega (arith, h.0)

    high : (b + 256 * of_le bs) / 256 ≡ of_le bs
    high = omega (arith, h.0)

pub All-reverse : (bs : List ℕ) → All IsByte bs → All IsByte (reverse bs)
All-reverse [] h = tt
All-reverse (b ∷ bs) h =
    rw reverse-cons (All-append IsByte (reverse bs) (b ∷ []) (All-reverse bs h.1) (h.0, tt))

pub of_be_bound : (bs : List ℕ) → All IsByte bs → of_be bs < 256 ^ length bs
unfolding of_be
of_be_bound bs h = rw (length-reverse bs) at (of_le_bound (reverse bs) (All-reverse bs h))

pub be_bytes-of_be : (bs : List ℕ) → All IsByte bs → be_bytes (length bs) (of_be bs) ≡ bs
unfolding of_be be_bytes
be_bytes-of_be bs h =
    rw (rw (length-reverse bs) at (le_bytes-of_le (reverse bs) (All-reverse bs h)))
      (reverse-reverse bs)

pub le_bytes-IsByte : (k n : ℕ) → All IsByte (le_bytes k n)
unfolding le_bytes
le_bytes-IsByte zero n = tt
le_bytes-IsByte (suc k) n = (omega arith, le_bytes-IsByte k (n / 256))

pub be_bytes-IsByte : (k n : ℕ) → All IsByte (be_bytes k n)
unfolding be_bytes
be_bytes-IsByte k n = All-reverse (le_bytes k n) (le_bytes-IsByte k n)
