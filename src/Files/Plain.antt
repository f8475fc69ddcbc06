-- ===== src/Files/Plain.antt =====
-- A text that `join` takes as one component: what the validation of names, tags and hosts ensures.
use goldboot.Base.{
  ℕ, ◌<◌, ◌≡◌, ◌≢◌, refl, sym, ap, ◌∙◌, append-nil, arith, Bool, true, false, List, [], ◌∷◌, ◌++◌,
  length, length-append, append_assoc, All, All-append, bytes_eq, bytes_eq→eq, ok, Bool-cases, inl,
  inr, ◌==◌,
}
use goldboot.Reference.{
  is_ref_byte, is_host_byte, dot, dot_dot, validate_ref_segment, validate_host_segment,
}
use goldboot.Reference.Segment.{validate_ref_segment_iff, validate_host_segment_iff}
use goldboot.Files.{split_slash, resolve, resolve_all, is_absolute, join}

pub record IsPlain (s : List ℕ) : Type 0 where
  pub nonempty : 0 < length s
  pub not_dot : s ≢ dot
  pub not_dot_dot : s ≢ dot_dot
  pub no_slash : All (λ b. (b == b'/') ≡ false) s

split_slash-plain :
    (part s : List ℕ) → All (λ b. (b == b'/') ≡ false) s → split_slash part s ≡ (part ++ s) ∷ []
unfolding split_slash
split_slash-plain part [] h = ap (λ (t : List ℕ). t ∷ []) (sym (append-nil part))
split_slash-plain part (b ∷ s) h = rw h.0 (
    split_slash-plain (part ++ b ∷ []) s h.1
    ∙ ap (λ (t : List ℕ). t ∷ []) (append_assoc part (b ∷ []) s))

relative : (s : List ℕ) → All (λ b. (b == b'/') ≡ false) s → is_absolute s ≡ false
relative [] h = refl
relative (b ∷ s) h = h.0

bytes_ne : (s t : List ℕ) → s ≢ t → bytes_eq s t ≡ false
bytes_ne s t h = elim (Bool-cases (bytes_eq s t)) [
  | inl q ↦ absurd (h (bytes_eq→eq s t q))
  | inr q ↦ q
]

pub join-IsPlain : (p : List (List ℕ)) (s : List ℕ) → IsPlain s → join p s ≡ p ++ s ∷ []
unfolding join resolve_all resolve
join-IsPlain p s v =
    let some_bytes : s ≢ [] = λ e. omega (arith, ap length e, v.nonempty) in
    rw
      (
        relative s v.no_slash,
        split_slash-plain [] s v.no_slash,
        bytes_ne s [] some_bytes,
        bytes_ne s dot v.not_dot,
        bytes_ne s dot_dot v.not_dot_dot,
      )
      refl

no_slash_in :
    (allowed : ℕ → Bool) (s : List ℕ)
    → allowed b'/' ≡ false
    → All (λ b. allowed b ≡ true) s
    → All (λ b. (b == b'/') ≡ false) s
no_slash_in allowed [] h all = tt
no_slash_in allowed (b ∷ s) h all = (
  elim (Bool-cases (b == b'/')) [
    | inl q ↦
        let same : b ≡ b'/' = ground arith in let yes : allowed b'/' ≡ true = rw same at all.0 in cc
    | inr q ↦ q
  ],
  no_slash_in allowed s h all.1,
)

pub validate_ref_segment-IsPlain : (s : List ℕ) → validate_ref_segment s ≡ ok tt → IsPlain s
validate_ref_segment-IsPlain s h =
    let v = (validate_ref_segment_iff s).0 h in
    record {
      nonempty = v.nonempty;
      not_dot = v.not_dot;
      not_dot_dot = v.not_dot_dot;
      no_slash = no_slash_in is_ref_byte s refl v.bytes_allowed;
    }

pub validate_host_segment-IsPlain : (s : List ℕ) → validate_host_segment s ≡ ok tt → IsPlain s
validate_host_segment-IsPlain s h =
    let v = (validate_host_segment_iff s).0 h in
    record {
      nonempty = v.nonempty;
      not_dot = v.not_dot;
      not_dot_dot = v.not_dot_dot;
      no_slash = no_slash_in is_host_byte s refl v.bytes_allowed;
    }

-- A tag with ".gb" behind it.
abbrev gb : List ℕ
gb = b'.' ∷ b'g' ∷ b'b' ∷ []

pub file_name-IsPlain : (tag : List ℕ) → IsPlain tag → IsPlain (tag ++ gb)
file_name-IsPlain tag v = record {
  nonempty = omega (arith, length-append tag gb, v.nonempty);
  not_dot = λ e. omega (arith, length-append tag gb, ap length e);
  not_dot_dot = λ e. omega (arith, length-append tag gb, ap length e);
  no_slash = All-append (λ b. (b == b'/') ≡ false) tag gb v.no_slash (refl, (refl, (refl, tt)));
}
