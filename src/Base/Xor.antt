-- ===== src/Base/Xor.antt =====
-- Exclusive or of machine words: the laws of `bit_xor`, from its digits, and masks of ones.
use Prim.Native.Nat.{
  ℕ, zero, suc, ◌+◌, ◌*◌, ◌/◌, ◌%◌, ◌^◌, ◌≤◌, ◌<◌, min, bit_and, bit_xor, digits, bitwise, differ,
  ◌-◌, bit_and-bitwise, bit_xor-bitwise,
}
use mathlib.Core.Path.{◌≡◌, refl, sym, ap, ◌∙◌}
use native.Mathlib.Omega.{arith}
use native.Mathlib.Nat.{pow-suc, add-zero, add-suc}

differ_bits : (p q : ℕ) → p < 2 → q < 2 → differ p q ≡ (p + q) % 2
differ_bits zero q hp hq = omega arith
differ_bits (suc p) zero hp hq = omega arith
differ_bits (suc zero) (suc zero) hp hq = refl
differ_bits (suc zero) (suc (suc q)) hp hq = absurd (omega arith)
differ_bits (suc (suc p)) (suc q) hp hq = absurd (omega arith)

-- Digits to go beyond those of the first number change nothing.
module _ (z : ℕ → ℕ) (f : ℕ → ℕ → ℕ) where
  one_spare : (n a b : ℕ) → a ≤ n → digits z f (suc n) a b ≡ digits z f n a b
  one_spare zero zero b h = refl
  one_spare (suc n) zero b h = refl
  one_spare zero (suc a) b h = elim h [ ]
  one_spare (suc n) (suc a) b h =
      ap (λ (high : ℕ). high * 2 + f (suc a % 2) (b % 2))
        (one_spare n (suc a / 2) (b / 2) (omega arith))

  spare : (k a b : ℕ) → digits z f (a + k) a b ≡ bitwise z f a b
  spare zero a b = ap (λ (n : ℕ). digits z f n a b) (add-zero a)
  spare (suc k) a b =
      ap (λ (n : ℕ). digits z f n a b) (add-suc a k)
      ∙ one_spare (a + k) a b (omega arith)
      ∙ spare k a b

  -- The digits above the lowest one need no more than themselves.
  above_lowest : (n m : ℕ) → digits z f n (suc n / 2) m ≡ bitwise z f (suc n / 2) m
  above_lowest n m =
      let enough : n ≡ suc n / 2 + (n - suc n / 2) = omega arith in
      ap (λ (k : ℕ). digits z f k (suc n / 2) m) enough ∙ spare (n - suc n / 2) (suc n / 2) m

  split_lowest :
      (n m low : ℕ)
      → f (suc n % 2) (m % 2) ≡ low
      → bitwise z f (suc n) m ≡ low + 2 * bitwise z f (suc n / 2) (m / 2)
  split_lowest n m low e = omega (arith, above_lowest n (m / 2), e)

pub zero-bit_xor : (b : ℕ) → bit_xor 0 b ≡ b
zero-bit_xor b = bit_xor-bitwise 0 b

-- The lowest digit.
bit_xor_step : (a b : ℕ) → bit_xor a b ≡ bit_xor (a / 2) (b / 2) * 2 + (a + b) % 2
bit_xor_step zero b = omega (arith, zero-bit_xor b, zero-bit_xor (b / 2))
bit_xor_step (suc a) b =
    bit_xor-bitwise (suc a) b
    ∙ split_lowest (λ b. b) differ a b _
        (differ_bits (suc a % 2) (b % 2) (omega arith) (omega arith))
    ∙ omega (arith, bit_xor-bitwise (suc a / 2) (b / 2))

pub bit_xor-half : (a b : ℕ) → bit_xor a b / 2 ≡ bit_xor (a / 2) (b / 2)
bit_xor-half a b = omega (arith, bit_xor_step a b)

pub bit_xor-low : (a b : ℕ) → bit_xor a b % 2 ≡ (a + b) % 2
bit_xor-low a b = omega (arith, bit_xor_step a b)

comm_fuel : (n a b : ℕ) → a ≤ n → b ≤ n → bit_xor a b ≡ bit_xor b a
comm_fuel zero zero zero p q = refl
comm_fuel zero zero (suc b) p q = absurd (omega arith)
comm_fuel zero (suc a) b p q = absurd (omega arith)
comm_fuel (suc n) a b p q = omega (
  arith,
  bit_xor_step a b,
  bit_xor_step b a,
  comm_fuel n (a / 2) (b / 2) (omega arith) (omega arith),
)

pub bit_xor_comm : (a b : ℕ) → bit_xor a b ≡ bit_xor b a
bit_xor_comm a b = comm_fuel (a + b) a b (omega arith) (omega arith)

pub bit_xor-zero : (a : ℕ) → bit_xor a 0 ≡ a
bit_xor-zero a = bit_xor_comm a 0 ∙ zero-bit_xor a

assoc_fuel :
    (n a b c : ℕ) → a ≤ n → b ≤ n → c ≤ n → bit_xor (bit_xor a b) c ≡ bit_xor a (bit_xor b c)
assoc_fuel zero zero b c p q r = rw (zero-bit_xor b, zero-bit_xor (bit_xor b c))
assoc_fuel zero (suc a) b c p q r = absurd (omega arith)
assoc_fuel (suc n) a b c p q r =
    let halves =
      ap (λ (x : ℕ). bit_xor x (c / 2)) (bit_xor-half a b)
      ∙ assoc_fuel n (a / 2) (b / 2) (c / 2) (omega arith) (omega arith) (omega arith)
      ∙ ap (bit_xor (a / 2)) (sym (bit_xor-half b c)) in
    omega (
      arith,
      halves,
      bit_xor_step (bit_xor a b) c,
      bit_xor_step a (bit_xor b c),
      bit_xor-low a b,
      bit_xor-low b c,
    )

pub bit_xor_assoc : (a b c : ℕ) → bit_xor (bit_xor a b) c ≡ bit_xor a (bit_xor b c)
bit_xor_assoc a b c = assoc_fuel (a + b + c) a b c (omega arith) (omega arith) (omega arith)

self_fuel : (n a : ℕ) → a ≤ n → bit_xor a a ≡ 0
self_fuel zero zero p = refl
self_fuel zero (suc a) p = absurd (omega arith)
self_fuel (suc n) a p = omega (arith, bit_xor_step a a, self_fuel n (a / 2) (omega arith))

pub bit_xor_self : (a : ℕ) → bit_xor a a ≡ 0
bit_xor_self a = self_fuel a a (omega arith)

pub bit_xor_bound : (k a b : ℕ) → a < 2 ^ k → b < 2 ^ k → bit_xor a b < 2 ^ k
bit_xor_bound zero a b p q =
    let none_a : a ≡ 0 = omega arith in
    let none_b : b ≡ 0 = omega arith in
    omega (arith, ap (λ (x : ℕ). bit_xor x b) none_a, zero-bit_xor b)
bit_xor_bound (suc k) a b p q = omega (
  arith,
  pow-suc 2 k,
  bit_xor_step a b,
  bit_xor_bound k (a / 2) (b / 2) (omega (arith, pow-suc 2 k)) (omega (arith, pow-suc 2 k)),
)

-- The same for `bit_and`.
and_low : (a b : ℕ) → bit_and a b ≡ bit_and (a / 2) (b / 2) * 2 + min (a % 2) (b % 2)
and_low zero b = let none_left = bit_and-bitwise 0 (b / 2) in bit_and-bitwise 0 b ∙ omega arith
and_low (suc a) b =
    bit_and-bitwise (suc a) b
    ∙ split_lowest (λ b. zero) min a b _ refl
    ∙ omega (arith, bit_and-bitwise (suc a / 2) (b / 2))

no_mask : (n a : ℕ) → a ≤ n → bit_and a 0 ≡ 0
no_mask n zero h = bit_and-bitwise 0 0
no_mask zero (suc a) h = elim h [ ]
no_mask (suc n) (suc a) h = and_low (suc a) 0 ∙ omega (arith, no_mask n (suc a / 2) (omega arith))

-- A mask of ones keeps as many digits.
pub bit_and_one : (a : ℕ) → bit_and a 1 ≡ a % 2
bit_and_one a = and_low a 1 ∙ omega (arith, no_mask (a / 2) (a / 2) (omega arith))

mask_nibble : (a : ℕ) → bit_and a 15 ≡ a % 16
mask_nibble a =
    let bit1 = and_low a 15 in
    let bit2 = and_low (a / 2) 7 in
    let bit3 = and_low (a / 2 / 2) 3 in let bit4 = bit_and_one (a / 2 / 2 / 2) in omega arith

pub bit_and_byte : (a : ℕ) → bit_and a 255 ≡ a % 256
bit_and_byte a =
    let bit1 = and_low a 255 in
    let bit2 = and_low (a / 2) 127 in
    let bit3 = and_low (a / 2 / 2) 63 in
    let bit4 = and_low (a / 2 / 2 / 2) 31 in
    let high = mask_nibble (a / 2 / 2 / 2 / 2) in omega arith
