-- ===== src/Reference/Segment.antt =====
-- What `validate_ref_segment` and `validate_host_segment` accept, and which byte they report.
use goldboot.Base.{
  ℕ, ◌+◌, ◌≤◌, ◌<◌, ◌≡◌, refl, ◌≢◌, ◌↔◌, Bool, true, false, ◌||◌, List, [], ◌∷◌, ◌++◌, length,
  length-append, ap, All, arith, bytes_eq, bytes_eq→eq, bytes_eq_refl, ok, err, invalid_byte,
  Result, Bool-cases, inl, inr, if◌then◌else◌, ltb, ◌==◌, empty_segment, segment_too_long,
  reserved_segment,
}
use goldboot.Reference.{
  is_ref_byte, is_host_byte, check_bytes, dot, dot_dot, validate_ref_segment, validate_host_segment,
}

check_bytes_accepts :
    (allowed : ℕ → Bool) (i : ℕ) (s : List ℕ)
    → check_bytes allowed i s ≡ ok tt
    → All (λ b. allowed b ≡ true) s
unfolding check_bytes
check_bytes_accepts allowed i [] h = tt
check_bytes_accepts allowed i (b ∷ s) h =
    (ground arith, check_bytes_accepts allowed (i + 1) s (ground arith))

check_bytes_passes :
    (allowed : ℕ → Bool) (i : ℕ) (s : List ℕ)
    → All (λ b. allowed b ≡ true) s
    → check_bytes allowed i s ≡ ok tt
unfolding check_bytes
check_bytes_passes allowed i [] h = refl
check_bytes_passes allowed i (b ∷ s) h = rw h.0 (check_bytes_passes allowed (i + 1) s h.1)

check_bytes_reports :
    (allowed : ℕ → Bool) (i : ℕ) (good : List ℕ) (b : ℕ) (rest : List ℕ)
    → All (λ a. allowed a ≡ true) good
    → allowed b ≡ false
    → check_bytes allowed i (good ++ b ∷ rest) ≡ err (invalid_byte b (i + length good))
unfolding check_bytes
check_bytes_reports allowed i [] b rest h bad = rw bad (ground arith)
check_bytes_reports allowed i (g ∷ good) b rest h bad =
    rw h.0 (ground (arith, check_bytes_reports allowed (i + 1) good b rest h.1 bad))

-- A segment within a length limit, not reserved, of allowed bytes only.
pub record IsSegment (limit : ℕ) (allowed : ℕ → Bool) (s : List ℕ) : Type 0 where
  pub nonempty : 0 < length s
  pub short : length s ≤ limit
  pub not_dot : s ≢ dot
  pub not_dot_dot : s ≢ dot_dot
  pub bytes_allowed : All (λ b. allowed b ≡ true) s

module _ (limit : ℕ) (allowed : ℕ → Bool) (s : List ℕ) where
  -- The shape that the two checks share.
  abbrev check : Result (Unit {0})
  check =
      if length s == 0
      then err empty_segment
      else if ltb limit (length s)
      then err segment_too_long
      else if bytes_eq s dot || bytes_eq s dot_dot
      then err reserved_segment
      else check_bytes allowed 0 s

  ne_reserved : check ≡ ok tt → bytes_eq s dot || bytes_eq s dot_dot ≡ false
  ne_reserved h = ground arith

  check-IsSegment : check ≡ ok tt → IsSegment limit allowed s
  check-IsSegment h = record {
    nonempty = ground arith;
    short = ground arith;
    not_dot = λ e. ground (arith, bytes_eq_refl dot);
    not_dot_dot = λ e. ground (arith, bytes_eq_refl dot_dot);
    bytes_allowed = check_bytes_accepts allowed 0 s (ground arith);
  }

  IsSegment-check : IsSegment limit allowed s → check ≡ ok tt
  IsSegment-check v = ground (
    arith,
    bytes_eq→eq s dot,
    bytes_eq→eq s dot_dot,
    check_bytes_passes allowed 0 s v.bytes_allowed,
    v.not_dot,
    v.not_dot_dot,
  )

-- A name or tag is accepted exactly if it has 1 to 64 bytes, is neither "." nor "..", and holds only
-- ASCII letters, digits, '.', '-' and '_'.
pub validate_ref_segment_iff :
    (s : List ℕ) → (validate_ref_segment s ≡ ok tt) ↔ IsSegment 64 is_ref_byte s
unfolding validate_ref_segment
validate_ref_segment_iff s = (check-IsSegment 64 is_ref_byte s, IsSegment-check 64 is_ref_byte s)

-- A host is accepted exactly if it has 1 to 253 bytes, is neither "." nor "..", and holds only those
-- bytes and ':'.
pub validate_host_segment_iff :
    (s : List ℕ) → (validate_host_segment s ≡ ok tt) ↔ IsSegment 253 is_host_byte s
unfolding validate_host_segment
validate_host_segment_iff s =
    (check-IsSegment 253 is_host_byte s, IsSegment-check 253 is_host_byte s)

dot_passes : check_bytes is_ref_byte 0 dot ≡ ok tt
unfolding check_bytes
dot_passes = refl

dot_dot_passes : check_bytes is_ref_byte 0 dot_dot ≡ ok tt
unfolding check_bytes
dot_dot_passes = refl

-- A text in which the loop finds a bad byte is not one in which it finds none.
ne_when_reported :
    (s t : List ℕ) (b n : ℕ)
    → check_bytes is_ref_byte 0 s ≡ err (invalid_byte b (0 + n))
    → check_bytes is_ref_byte 0 t ≡ ok tt
    → bytes_eq s t ≡ false
ne_when_reported s t b n h p = elim (Bool-cases (bytes_eq s t)) [
  | inl e ↦ cc (ap (check_bytes is_ref_byte 0) (bytes_eq→eq s t e))
  | inr e ↦ e
]

-- With its length in range and a byte that is not allowed, a name or tag is refused with the value
-- and the position of the first such byte.
pub validate_ref_segment_reports :
    (good : List ℕ) (b : ℕ) (rest : List ℕ)
    → All (λ a. is_ref_byte a ≡ true) good
    → is_ref_byte b ≡ false
    → length (good ++ b ∷ rest) ≤ 64
    → validate_ref_segment (good ++ b ∷ rest) ≡ err (invalid_byte b (length good))
unfolding validate_ref_segment
validate_ref_segment_reports good b rest h bad short =
    let report = check_bytes_reports is_ref_byte 0 good b rest h bad in
    ground (
      arith,
      length-append good (b ∷ rest),
      report,
      ne_when_reported (good ++ b ∷ rest) dot b (length good) report dot_passes,
      ne_when_reported (good ++ b ∷ rest) dot_dot b (length good) report dot_dot_passes,
    )
