-- ===== src/Apply/Distinct.antt =====
-- goldboot-image/src/lib.rs, `stream_write`: the offsets that are pushed when first seen are distinct.
use goldboot.Base.{ℕ, ◌≡◌, refl, false, inl, inr, List, [], ◌∷◌, ◌++◌, arith, ◌==◌, Bool-cases}
use goldboot.Format.{DigestTableEntry}
use goldboot.Apply.Stream.{is_seen, unique_from}

-- No offset is listed twice.
abbrev pub AreDistinct : List ℕ → Type 0
AreDistinct [] = Unit
AreDistinct (x ∷ xs) = (is_seen x xs ≡ false) × AreDistinct xs

is_seen-append :
    (o k : ℕ) (xs : List ℕ)
    → is_seen o xs ≡ false
    → (k == o) ≡ false
    → is_seen o (xs ++ k ∷ []) ≡ false
unfolding is_seen
is_seen-append o k [] h differ = rw differ refl
is_seen-append o k (x ∷ xs) h differ = elim (Bool-cases (x == o)) [
  | inl q ↦ let no = rw q at h in cc
  | inr q ↦ rw q (is_seen-append o k xs (rw q at h) differ)
]

AreDistinct-append :
    (o : ℕ) (xs : List ℕ) → AreDistinct xs → is_seen o xs ≡ false → AreDistinct (xs ++ o ∷ [])
unfolding is_seen
AreDistinct-append o [] d h = (refl, tt)
AreDistinct-append o (x ∷ xs) d h = elim (Bool-cases (x == o)) [
  | inl q ↦ let no = rw q at h in cc
  | inr q ↦ (is_seen-append x o xs d.0 (ground (arith, q)), AreDistinct-append o xs d.1 (rw q at h))
]

pub unique_from-AreDistinct :
    (seen : List ℕ) (es : List DigestTableEntry)
    → AreDistinct seen
    → AreDistinct (unique_from seen es)
unfolding unique_from
unique_from-AreDistinct seen [] d = d
unique_from-AreDistinct seen (e ∷ es) d = elim (Bool-cases (is_seen e.cluster_offset seen)) [
  | inl q ↦ rw q (unique_from-AreDistinct seen es d)
  | inr q ↦ rw q (
      unique_from-AreDistinct (seen ++ e.cluster_offset ∷ []) es
        (AreDistinct-append e.cluster_offset seen d q))
]
