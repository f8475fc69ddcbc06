-- ===== src/Gpt/Crc/Serial.antt =====
-- The table of `crc32` against the shift register that it speeds up.
use goldboot.Base.{
  ℕ, zero, suc, ◌/◌, List, [], ◌∷◌, bit_and, bit_xor, get_or, ◌==◌, if◌then◌else◌, ◌≡◌, refl, sym,
  ap, ◌∙◌, ◌+◌, ◌%◌, ◌^◌, ◌<◌, arith, All, IsByte, inl, inr, true, false, Bool-cases,
}
use goldboot.Base.Xor.{
  zero-bit_xor, bit_xor-zero, bit_xor-half, bit_xor-low, bit_xor_assoc, bit_xor_bound, bit_and_one,
  bit_and_byte,
}
use goldboot.Gpt.Crc.{table_step, table_steps, table_from, crc_bytes, crc32}

-- The register of a serial checksum: a bit of the data goes in at the bottom, and the polynomial is
-- added when the bit that falls out differs from it.
unfoldable pub shift_bit : ℕ → ℕ → ℕ
shift_bit c d = if (c + d) % 2 == 0 then c / 2 else bit_xor 0xedb88320 (c / 2)

-- k bits of a number, lowest first.
unfoldable pub shift_bits : ℕ → ℕ → ℕ → ℕ
shift_bits zero c n = c
shift_bits (suc k) c n = shift_bits k (shift_bit c (n % 2)) (n / 2)

unfoldable pub shift_bytes : ℕ → List ℕ → ℕ
shift_bytes c [] = c
shift_bytes c (b ∷ bytes) = shift_bytes (shift_bits 8 c b) bytes

-- Adding a number to the register before a step is adding its lowest bit in the step, and the rest after.
step-bit_xor : (c n : ℕ) → table_step (bit_xor c n) ≡ bit_xor (shift_bit c (n % 2)) (n / 2)
unfolding table_step shift_bit
step-bit_xor c n =
    let low = bit_and_one (bit_xor c n) ∙ bit_xor-low c n in
    elim (Bool-cases ((c + n % 2) % 2 == 0)) [
      | inl q ↦
          let even : (bit_and (bit_xor c n) 1 == 0) ≡ true = ground arith in
          rw (q, even) (bit_xor-half c n)
      | inr q ↦
          let odd : (bit_and (bit_xor c n) 1 == 0) ≡ false = ground arith in
          rw (q, odd, bit_xor-half c n) (sym (bit_xor_assoc 0xedb88320 (c / 2) (n / 2)))
    ]

abbrev halves : ℕ → ℕ → ℕ
halves zero n = n
halves (suc k) n = halves k (n / 2)

halves_eight : (n : ℕ) → halves 8 n ≡ n / 256
halves_eight n = omega arith

halves-bit_xor : (k a b : ℕ) → halves k (bit_xor a b) ≡ bit_xor (halves k a) (halves k b)
halves-bit_xor zero a b = refl
halves-bit_xor (suc k) a b = ap (halves k) (bit_xor-half a b) ∙ halves-bit_xor k (a / 2) (b / 2)

byte-bit_xor : (a b : ℕ) → b < 256 → bit_xor a b / 256 ≡ a / 256
byte-bit_xor a b h =
    let gone : halves 8 b ≡ 0 = omega arith in
    sym (halves_eight (bit_xor a b))
    ∙ halves-bit_xor 8 a b
    ∙ ap (bit_xor (halves 8 a)) gone
    ∙ bit_xor-zero (halves 8 a)
    ∙ halves_eight a

steps_from : (k c n : ℕ) → table_steps k (bit_xor c n) ≡ bit_xor (shift_bits k c n) (halves k n)
unfolding table_steps shift_bits
steps_from zero c n = refl
steps_from (suc k) c n =
    ap (table_steps k) (step-bit_xor c n) ∙ steps_from k (shift_bit c (n % 2)) (n / 2)

steps-bit_xor : (c n : ℕ) → table_steps 8 (bit_xor c n) ≡ bit_xor (shift_bits 8 c n) (n / 256)
steps-bit_xor c n = steps_from 8 c n ∙ ap (bit_xor (shift_bits 8 c n)) (halves_eight n)

abbrev SameBits : ℕ → ℕ → ℕ → Type 0
SameBits zero n m = Unit
SameBits (suc k) n m = (n % 2 ≡ m % 2) × SameBits k (n / 2) (m / 2)

shift_bits_same : (k c n m : ℕ) → SameBits k n m → shift_bits k c n ≡ shift_bits k c m
unfolding shift_bits
shift_bits_same zero c n m h = refl
shift_bits_same (suc k) c n m h =
    ap (λ (x : ℕ). shift_bits k (shift_bit c x) (n / 2)) h.0
    ∙ shift_bits_same k (shift_bit c (m % 2)) (n / 2) (m / 2) h.1

low_bits : (n : ℕ) → SameBits 8 n (n % 256)
low_bits n = (
  omega arith,
  (
    omega arith,
    (omega arith, (omega arith, (omega arith, (omega arith, (omega arith, (omega arith, tt)))))),
  ),
)

table_word : (n i j : ℕ) → j < n → get_or (table_from n i) j 0 ≡ table_steps 8 (i + j)
unfolding table_from
table_word zero i j h = absurd (omega arith)
table_word (suc n) i zero h = ap (table_steps 8) (omega arith)
table_word (suc n) i (suc j) h =
    table_word n (suc i) j (omega arith) ∙ ap (table_steps 8) (omega arith)

-- Eight steps at once: the table gives what the low byte makes of the register.
steps-table :
    (x : ℕ) → table_steps 8 x ≡ bit_xor (get_or (table_from 256 0) (bit_and x 255) 0) (x / 256)
steps-table x =
    let low = x % 256 in
    let alone : table_steps 8 low ≡ shift_bits 8 0 low =
      ap (table_steps 8) (sym (zero-bit_xor low))
      ∙ steps-bit_xor 0 low
      ∙ ap (bit_xor (shift_bits 8 0 low)) (omega arith)
      ∙ bit_xor-zero _ in
    let word =
      ap (λ (j : ℕ). get_or (table_from 256 0) j 0) (bit_and_byte x)
      ∙ table_word 256 0 low (omega arith)
      ∙ ap (table_steps 8) (omega arith) in
    ap (table_steps 8) (sym (zero-bit_xor x))
    ∙ steps-bit_xor 0 x
    ∙ ap (λ (w : ℕ). bit_xor w (x / 256))
        (shift_bits_same 8 0 x low (low_bits x) ∙ sym alone ∙ sym word)

crc_byte :
    (crc b : ℕ)
    → b < 256
    → bit_xor (get_or (table_from 256 0) (bit_and (bit_xor crc b) 0xff) 0) (crc / 256)
      ≡ shift_bits 8 crc b
crc_byte crc b h =
    let word = get_or (table_from 256 0) (bit_and (bit_xor crc b) 255) 0 in
    ap (bit_xor word) (sym (byte-bit_xor crc b h))
    ∙ sym (steps-table (bit_xor crc b))
    ∙ steps-bit_xor crc b
    ∙ ap (bit_xor (shift_bits 8 crc b)) (omega arith)
    ∙ bit_xor-zero (shift_bits 8 crc b)

crc_bytes-shift :
    (crc : ℕ) (bytes : List ℕ)
    → All IsByte bytes
    → crc_bytes (table_from 256 0) crc bytes ≡ shift_bytes crc bytes
unfolding crc_bytes shift_bytes
crc_bytes-shift crc [] h = refl
crc_bytes-shift crc (b ∷ bytes) h =
    ap (λ (c : ℕ). crc_bytes (table_from 256 0) c bytes) (crc_byte crc b h.0)
    ∙ crc_bytes-shift (shift_bits 8 crc b) bytes h.1

-- The checksum by the table is the one of the serial register, which takes the bits of each byte one by
-- one, lowest first, starting from ones and inverted at the end.
pub crc32_serial :
    (bytes : List ℕ)
    → All IsByte bytes
    → crc32 bytes ≡ bit_xor (shift_bytes 0xffffffff bytes) 0xffffffff
unfolding crc32
crc32_serial bytes h = ap (λ (c : ℕ). bit_xor c 0xffffffff) (crc_bytes-shift 0xffffffff bytes h)

-- The checksum fits its field of four bytes.
shift_bit_bound : (c d : ℕ) → c < 2 ^ 32 → shift_bit c d < 2 ^ 32
unfolding shift_bit
shift_bit_bound c d h = elim (Bool-cases ((c + d) % 2 == 0)) [
  | inl q ↦ rw q (omega arith)
  | inr q ↦ rw q (bit_xor_bound 32 0xedb88320 (c / 2) (omega arith) (omega arith))
]

shift_bits_bound : (k c n : ℕ) → c < 2 ^ 32 → shift_bits k c n < 2 ^ 32
unfolding shift_bits
shift_bits_bound zero c n h = h
shift_bits_bound (suc k) c n h =
    shift_bits_bound k (shift_bit c (n % 2)) (n / 2) (shift_bit_bound c (n % 2) h)

shift_bytes_bound : (c : ℕ) (bytes : List ℕ) → c < 2 ^ 32 → shift_bytes c bytes < 2 ^ 32
unfolding shift_bytes
shift_bytes_bound c [] h = h
shift_bytes_bound c (b ∷ bytes) h =
    shift_bytes_bound (shift_bits 8 c b) bytes (shift_bits_bound 8 c b h)

pub crc32_bound : (bytes : List ℕ) → All IsByte bytes → crc32 bytes < 2 ^ 32
crc32_bound bytes h = rw (crc32_serial bytes h) (
    bit_xor_bound 32 (shift_bytes 0xffffffff bytes) 0xffffffff
      (shift_bytes_bound 0xffffffff bytes (omega arith)) (omega arith))
