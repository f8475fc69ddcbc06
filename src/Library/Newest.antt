-- ===== src/Library/Newest.antt =====
-- A reference without a tag is the newest image of its name.
use goldboot.Base.{
  ℕ, ◌≤◌, ◌<◌, true, List, [], ◌∷◌, ◌++◌, none, some, ltb, ok, All, ◌≡◌, refl, sym, ap, ◌⊎◌, inl,
  inr, arith, Bool-cases,
}
use goldboot.Crates.{Crates}
use goldboot.Files.{Files, listed}
use goldboot.Handle.{ImageHandle}
use goldboot.Reference.{
  ImageRef, host_bare, validate_part, validate_ref_segment, validate_host_segment,
}
use goldboot.Library.{name_dir, opened, better, newest, find_untagged, find_by_ref}

abbrev pub time : ImageHandle → ℕ
time h = h.primary_header.timestamp

-- Later than all before it in the list, and no earlier than all behind.
pub record IsNewest (h : ImageHandle) (hs : List ImageHandle) : Type 0 where
  pub before : List ImageHandle
  pub after : List ImageHandle
  pub parts : hs ≡ before ++ h ∷ after
  pub later : All (λ g. time g < time h) before
  pub latest : All (λ g. time g ≤ time h) after

-- What the loop ends with, from the best one so far.
abbrev Ends : ImageHandle → List ImageHandle → ImageHandle → Type 0
Ends b hs h = ((h ≡ b) × All (λ g. time g ≤ time b) hs) ⊎ (IsNewest h hs × (time b < time h))

newest-Ends :
    (b : ImageHandle) (hs : List ImageHandle)
    → (h : ImageHandle) × (newest (some b) hs ≡ some h) × Ends b hs h
unfolding newest better
newest-Ends b [] = (b, refl, inl (refl, tt))
newest-Ends b (g ∷ gs) = elim (Bool-cases (ltb (time b) (time g))) [
  | inl q ↦
      let (h, ends, how) = newest-Ends g gs in
      rw q (
        h,
        ends,
        elim how [
          | inl (same, rest) ↦ inr (
            record {
              before = [];
              after = gs;
              parts = ap (λ (x : ImageHandle). x ∷ gs) (sym same);
              later = tt;
              latest = rw same rest;
            },
            rw same (ground arith),
          )
          | inr (n, more) ↦ inr (
            record {
              before = g ∷ n.before;
              after = n.after;
              parts = ap (λ (t : List ImageHandle). g ∷ t) n.parts;
              later = (more, n.later);
              latest = n.latest;
            },
            ground arith,
          )
        ],
      )
  | inr q ↦
      let (h, ends, how) = newest-Ends b gs in
      rw q (
        h,
        ends,
        elim how [
          | inl (same, rest) ↦ inl (same, (ground arith, rest))
          | inr (n, more) ↦ inr (
            record {
              before = g ∷ n.before;
              after = n.after;
              parts = ap (λ (t : List ImageHandle). g ∷ t) n.parts;
              later = (ground arith, n.later);
              latest = n.latest;
            },
            more,
          )
        ],
      )
]

newest-IsNewest :
    (g : ImageHandle) (gs : List ImageHandle)
    → (h : ImageHandle) × (newest none (g ∷ gs) ≡ some h) × IsNewest h (g ∷ gs)
unfolding newest better
newest-IsNewest g gs =
    let (h, ends, how) = newest-Ends g gs in
    (
      h,
      ends,
      elim how [
        | inl (same, rest) ↦ record {
          before = [];
          after = gs;
          parts = ap (λ (x : ImageHandle). x ∷ gs) (sym same);
          later = tt;
          latest = rw same rest;
        }
        | inr (n, more) ↦ record {
          before = g ∷ n.before;
          after = n.after;
          parts = ap (λ (t : List ImageHandle). g ∷ t) n.parts;
          later = (more, n.later);
          latest = n.latest;
        }
      ],
    )

-- A valid reference without a tag is found when its directory holds an image that opens: the one with
-- the highest timestamp among those that open, and the first of them in the listing if there are
-- several.
pub find_by_ref-IsNewest :
    (c : Crates) (directory : List (List ℕ)) (r : ImageRef) (fs : Files) (g : ImageHandle)
    (gs : List ImageHandle)
    → validate_ref_segment r.name ≡ ok tt
    → validate_part validate_host_segment (host_bare r) ≡ ok tt
    → r.tag ≡ none
    → listed (name_dir directory (host_bare r) r.name) fs.dirs ≡ true
    → opened c (name_dir directory (host_bare r) r.name) fs.files ≡ g ∷ gs
    → (h : ImageHandle) × (find_by_ref c directory r fs ≡ ok h) × IsNewest h (g ∷ gs)
unfolding find_by_ref find_untagged
find_by_ref-IsNewest c directory r fs g gs named hosted untagged there some_open =
    let (h, ends, how) = newest-IsNewest g gs in
    (h, rw (named, hosted, untagged, there, some_open, ends) refl, how)
