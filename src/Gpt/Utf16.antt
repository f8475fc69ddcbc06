-- ===== src/Gpt/Utf16.antt =====
-- The standard library's `str::encode_utf16` and `String::from_utf16_lossy`, which a partition's name
-- goes through. A string is the list of its characters, as numbers.
use goldboot.Base.{
  ℕ, ◌+◌, ◌-◌, ◌*◌, ◌/◌, ◌%◌, ◌≤◌, ◌<◌, Bool, true, false, ◌&&◌, List, [], ◌∷◌, ◌++◌, ltb, leb,
  if◌then◌else◌, ◌≡◌, refl, ap, ◌∙◌, ◌⊎◌, inl, inr, arith, All, Bool-cases,
}

-- A character is a code point that is no surrogate.
abbrev pub IsScalar : ℕ → Type 0
IsScalar c = (c < 0xD800) ⊎ ((0xE000 ≤ c) × (c < 0x110000))

unfoldable pub encode_char : ℕ → List ℕ
encode_char c =
    if ltb c 0x10000
    then c ∷ []
    else (0xD800 + (c - 0x10000) / 0x400) ∷ (0xDC00 + (c - 0x10000) % 0x400) ∷ []

unfoldable pub encode_utf16 : List ℕ → List ℕ
encode_utf16 [] = []
encode_utf16 (c ∷ cs) = encode_char c ++ encode_utf16 cs

abbrev is_high : ℕ → Bool
is_high u = leb 0xD800 u && ltb u 0xDC00

abbrev is_low : ℕ → Bool
is_low u = leb 0xDC00 u && ltb u 0xE000

-- A surrogate alone becomes the replacement character.
abbrev single : ℕ → ℕ
single u = if leb 0xD800 u && ltb u 0xE000 then 0xFFFD else u

unfoldable pub from_utf16_lossy : List ℕ → List ℕ
from_utf16_lossy [] = []
from_utf16_lossy (u ∷ []) = single u ∷ []
from_utf16_lossy (u ∷ v ∷ vs) = elim (is_high u && is_low v) [
  | true ↦ (0x10000 + (u - 0xD800) * 0x400 + (v - 0xDC00)) ∷ from_utf16_lossy vs
  | false ↦ single u ∷ from_utf16_lossy (v ∷ vs)
]

plain-single : (c : ℕ) → IsScalar c → single c ≡ c
plain-single c (inl h) = ground arith
plain-single c (inr h) = ground arith

plain_not_high : (c : ℕ) → IsScalar c → is_high c ≡ false
plain_not_high c (inl h) = ground arith
plain_not_high c (inr h) = ground arith

decode-plain :
    (c : ℕ) (us : List ℕ) → IsScalar c → from_utf16_lossy (c ∷ us) ≡ c ∷ from_utf16_lossy us
unfolding from_utf16_lossy
decode-plain c [] h = ap (λ (x : ℕ). x ∷ []) (plain-single c h)
decode-plain c (v ∷ vs) h =
    rw (plain_not_high c h, from_utf16_lossy)
      (ap (λ (x : ℕ). x ∷ from_utf16_lossy (v ∷ vs)) (plain-single c h))

decode-pair :
    (n : ℕ) (us : List ℕ)
    → n < 0x100000
    → from_utf16_lossy ((0xD800 + n / 0x400) ∷ (0xDC00 + n % 0x400) ∷ us)
      ≡ (0x10000 + n) ∷ from_utf16_lossy us
unfolding from_utf16_lossy
decode-pair n us h =
    let paired : (is_high (0xD800 + n / 0x400) && is_low (0xDC00 + n % 0x400)) ≡ true =
      ground arith in
    rw (paired, from_utf16_lossy) (ap (λ (x : ℕ). x ∷ from_utf16_lossy us) (omega arith))

-- A string comes back from its code units.
pub from_utf16_lossy-encode_utf16 :
    (cs : List ℕ) → All IsScalar cs → from_utf16_lossy (encode_utf16 cs) ≡ cs
unfolding encode_utf16 encode_char from_utf16_lossy
from_utf16_lossy-encode_utf16 [] h = refl
from_utf16_lossy-encode_utf16 (c ∷ cs) h =
    let rest = from_utf16_lossy-encode_utf16 cs h.1 in
    elim (Bool-cases (ltb c 0x10000)) [
      | inl q ↦ rw q (decode-plain c (encode_utf16 cs) h.0 ∙ ap (λ (t : List ℕ). c ∷ t) rest)
      | inr q ↦
          let scalar : c < 0x110000 = elim h.0 [ inl l ↦ omega arith | inr l ↦ l.1 ] in
          let back : 0x10000 + (c - 0x10000) ≡ c = ground arith in
          rw q (
            decode-pair (c - 0x10000) (encode_utf16 cs) (ground arith)
            ∙ ap (λ (x : ℕ). x ∷ from_utf16_lossy (encode_utf16 cs)) back
            ∙ ap (λ (t : List ℕ). c ∷ t) rest)
    ]
