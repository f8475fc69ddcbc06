-- ===== src/Handle/Region.antt =====
-- `compute_content_id` takes the whole region, however it is cut into pieces.
use goldboot.Base.{
  ok, false, ℕ, zero, suc, ◌+◌, ◌-◌, ◌≤◌, ◌<◌, ◌≡◌, refl, sym, ap, ◌∙◌, List, [], ◌∷◌, ◌++◌, length,
  take, drop, slice, length-take, length-drop, ltb, leb, if◌then◌else◌, arith, Bool-cases, inl, inr,
}
use native.Mathlib.Nat.{sub-zero}
use goldboot.Crates.{Crates}
use goldboot.Handle.{hash_region, compute_content_id}

take_nil : (n : ℕ) → take {A = ℕ} n [] ≡ []
take_nil zero = refl
take_nil (suc n) = refl

nil_takes : (n k : ℕ) → take {A = ℕ} n [] ≡ take k []
nil_takes n k = take_nil n ∙ sym (take_nil k)

-- What stands behind a piece, whether or not the piece is full.
take_rest :
    (n remaining : ℕ) (file : List ℕ)
    → n ≤ remaining
    → take n file ++ take (remaining - length (take n file)) (drop n file) ≡ take remaining file
take_rest zero remaining file h = ap (λ (r : ℕ). take r file) (sub-zero remaining)
take_rest (suc n) remaining [] h = nil_takes (remaining - 0) remaining
take_rest (suc n) zero (x ∷ xs) h = absurd (omega arith)
take_rest (suc n) (suc remaining) (x ∷ xs) h =
    let shifted : suc remaining - suc (length (take n xs)) ≡ remaining - length (take n xs) =
      omega arith in
    ap (λ (t : List ℕ). x ∷ t)
      (ap (λ (r : ℕ). take n xs ++ take r (drop n xs)) shifted
        ∙ take_rest n remaining xs (omega arith))

no_bytes : (xs : List ℕ) → length xs ≡ 0 → xs ≡ []
no_bytes [] h = refl
no_bytes (x ∷ xs) h = absurd (omega arith)

-- One turn of the loop, with a piece of n bytes asked for.
region_step :
    (remaining n : ℕ) (file rest : List ℕ)
    → n ≤ remaining
    → (0 < remaining → 0 < n)
    → (0 < length (take n file) → rest ≡ take (remaining - length (take n file)) (drop n file))
    → (if leb remaining 0
        then []
        else if leb (length (take n file)) 0
        then []
        else take n file ++ rest)
      ≡ take remaining file
region_step remaining n file rest within some_asked go = elim (Bool-cases (leb remaining 0)) [
  | inl q ↦ let done : remaining ≡ 0 = ground arith in rw q (ap (λ (r : ℕ). take r file) (sym done))
  | inr q ↦ elim (Bool-cases (leb (length (take n file)) 0)) [
    | inl q' ↦
        let asked = some_asked (ground arith) in
        let short : length (take n file) ≡ 0 = ground arith in
        let empty = no_bytes file (omega (arith, length-take n file)) in
        rw (q, q') (sym (ap (take remaining) empty ∙ take_nil remaining))
    | inr q' ↦
        rw (q, q')
          (ap (λ (t : List ℕ). take n file ++ t) (go (ground arith))
            ∙ take_rest n remaining file within)
  ]
]

-- With more fuel than the file has bytes, the pieces are the region.
hash_region-take :
    (fuel remaining : ℕ) (file : List ℕ)
    → length file < fuel
    → hash_region fuel remaining file ≡ take remaining file
unfolding hash_region
hash_region-take zero remaining file h = absurd (omega arith)
hash_region-take (suc fuel) remaining file h =
    let n = if ltb remaining 65536 then remaining else 65536 in
    region_step remaining n file _ (ground arith) (λ k. ground arith)
      (λ k.
        hash_region-take fuel (remaining - length (take n file)) (drop n file)
          (omega (arith, length-drop n file, length-take n file)))

-- The content ID that is computed from a file is the hash of the bytes from the start of the region up
-- to its end, or up to the end of the file, although the loop takes them in pieces; the region must
-- not end before it starts.
pub compute_content_id-slice :
    (c : Crates) (file : List ℕ) (start end : ℕ)
    → start ≤ end
    → compute_content_id c file start end ≡ ok (c.sha256 (slice start (end - start) file))
unfolding compute_content_id
compute_content_id-slice c file start end ordered =
    let in_order : ltb end start ≡ false = ground arith in
    let region =
      hash_region-take (length file + 1) (end - start) (drop start file)
        (omega (arith, length-drop start file)) in
    rw (in_order, region) refl
