-- ===== src/Library/Prune.antt =====
-- goldboot/src/library.rs, `prune_empty_parents`: which directories a delete removes, and which stay.
use goldboot.Base.{
  bytes_eq_refl, ℕ, Bool, Error, true, false, ◌||◌, not, List, [], ◌∷◌, ◌++◌, ok, err, Result-cases,
  Bool-cases, ◌≡◌, ◌≢◌, refl, sym, ap, ◌∙◌, ◌⊎◌, inl, inr,
}
use mathlib.Core.List.{reverse, reverse-cons, reverse-append, reverse-reverse}
use goldboot.Files.{Files, path_eq, listed, parent}
use goldboot.Files.Laws.{path_eq→eq, path_eq_refl, path_ne}
use goldboot.Library.{
  below, any_below, file_paths, without_dir, remove_dir, prune_up, prune_empty_parents,
}

-- Whether a directory has a file or a directory below it.
abbrev pub has_below : List (List ℕ) → Files → Bool
has_below dir fs = any_below dir (file_paths fs.files) || any_below dir fs.dirs

-- A directory that is the root, or is gone, or has something below it.
abbrev pub IsPruned : List (List ℕ) → List (List ℕ) → Files → Type 0
IsPruned root dir fs = (dir ≡ root) ⊎ ((listed dir fs.dirs ≡ false) ⊎ (has_below dir fs ≡ true))

listed-without_dir :
    (p : List (List ℕ)) (ds : List (List (List ℕ))) → listed p (without_dir p ds) ≡ false
unfolding listed without_dir
listed-without_dir p [] = refl
listed-without_dir p (q ∷ ds) = elim (Bool-cases (path_eq p q)) [
  | inl e ↦ rw e (listed-without_dir p ds)
  | inr e ↦ rw (e, e) (listed-without_dir p ds)
]

listed_other-without_dir :
    (p q : List (List ℕ)) (ds : List (List (List ℕ)))
    → q ≢ p
    → listed q (without_dir p ds) ≡ listed q ds
unfolding listed without_dir
listed_other-without_dir p q [] h = refl
listed_other-without_dir p q (r ∷ ds) h = elim (Bool-cases (path_eq p r)) [
  | inl e ↦
      let other : path_eq q r ≡ false = path_ne q r (λ e'. h (e' ∙ sym (path_eq→eq p r e))) in
      rw (e, other) (listed_other-without_dir p q ds h)
  | inr e ↦ rw e (ap (λ (b : Bool). path_eq q r || b) (listed_other-without_dir p q ds h))
]

or_false : (a b c : Bool) → (a || b || c) ≡ false → b ≡ false
or_false true b c h = cc
or_false false true c h = cc
or_false false false c h = refl

-- A directory that is removed is empty, and nothing else changes.
remove_dir-ok :
    (dir : List (List ℕ)) (fs fs' : Files)
    → remove_dir dir fs ≡ ok fs'
    → (any_below dir (file_paths fs.files) ≡ false)
      × (record fs { dirs = without_dir dir fs.dirs } ≡ fs')
unfolding remove_dir
remove_dir-ok dir fs fs' h =
    elim (Bool-cases
      (not (listed dir fs.dirs) || any_below dir (file_paths fs.files) || any_below dir fs.dirs)) [
        | inl q ↦ let no = rw q at h in cc
        | inr q ↦
            let done : ok (record fs { dirs = without_dir dir fs.dirs }) ≡ ok fs' = rw q at h in
            (
              or_false (not (listed dir fs.dirs)) (any_below dir (file_paths fs.files))
                  (any_below dir fs.dirs) q,
              cc,
            )
      ]

-- One that is not removed is not there, or has something below it.
remove_dir-err :
    (dir : List (List ℕ)) (fs : Files) (e : Error)
    → remove_dir dir fs ≡ err e
    → (listed dir fs.dirs ≡ false) ⊎ (has_below dir fs ≡ true)
unfolding remove_dir
remove_dir-err dir fs e h = elim (Bool-cases (listed dir fs.dirs)) [
  | inr q ↦ inl q
  | inl q ↦ elim (Bool-cases (has_below dir fs)) [
    | inl q' ↦ inr q'
    | inr q' ↦ let no = rw (q, q') at h in cc
  ]
]

or_true : (a b : Bool) → b ≡ true → (a || b) ≡ true
or_true true b h = refl
or_true false b h = h

true_ne : true ≢ false
true_ne h = cc

module _ (root : List (List ℕ)) where
  pub prune_up_files : (up : List (List ℕ)) (fs : Files) → (prune_up root up fs).files ≡ fs.files
  unfolding prune_up
  prune_up_files [] fs = refl
  prune_up_files (p ∷ up) fs = elim (Bool-cases (path_eq (reverse (p ∷ up)) root)) [
    | inl q ↦ rw q refl
    | inr q ↦ elim (Result-cases (remove_dir (reverse (p ∷ up)) fs)) [
      | inl (fs', q') ↦
          rw (q, q')
            (prune_up_files up fs'
              ∙ ap (λ (f : Files). f.files) (sym (remove_dir-ok (reverse (p ∷ up)) fs fs' q').1))
      | inr (e, q') ↦ rw (q, q') refl
    ]
  ]

  -- What is not there does not come back.
  prune_up-absent :
      (q : List (List ℕ)) (up : List (List ℕ)) (fs : Files)
      → listed q fs.dirs ≡ false
      → listed q (prune_up root up fs).dirs ≡ false
  unfolding prune_up
  prune_up-absent q [] fs h = h
  prune_up-absent q (p ∷ up) fs h = elim (Bool-cases (path_eq (reverse (p ∷ up)) root)) [
    | inl e ↦ rw e h
    | inr e ↦ elim (Result-cases (remove_dir (reverse (p ∷ up)) fs)) [
      | inr (x, e') ↦ rw (e, e') h
      | inl (fs', e') ↦
          let dir = reverse (p ∷ up) in
          let done = ap (λ (f : Files). f.dirs) (remove_dir-ok dir fs fs' e').1 in
          let still : listed q (without_dir dir fs.dirs) ≡ false =
            elim (Bool-cases (path_eq q dir)) [
              | inl s ↦
                  ap (λ (x : List (List ℕ)). listed x (without_dir dir fs.dirs))
                    (path_eq→eq q dir s)
                  ∙ listed-without_dir dir fs.dirs
              | inr s ↦
                  listed_other-without_dir dir q fs.dirs
                    (λ same. true_ne (sym (ap (path_eq q) (sym same) ∙ path_eq_refl q) ∙ s))
                  ∙ h
            ] in
          rw (e, e') (prune_up-absent q up fs' (ap (listed q) (sym done) ∙ still))
    ]
  ]

  -- A directory with a file below it stays.
  pub prune_up-kept :
      (q : List (List ℕ)) (up : List (List ℕ)) (fs : Files)
      → any_below q (file_paths fs.files) ≡ true
      → listed q (prune_up root up fs).dirs ≡ listed q fs.dirs
  unfolding prune_up
  prune_up-kept q [] fs h = refl
  prune_up-kept q (p ∷ up) fs h = elim (Bool-cases (path_eq (reverse (p ∷ up)) root)) [
    | inl e ↦ rw e refl
    | inr e ↦ elim (Result-cases (remove_dir (reverse (p ∷ up)) fs)) [
      | inr (x, e') ↦ rw (e, e') refl
      | inl (fs', e') ↦
          let dir = reverse (p ∷ up) in
          let removed = remove_dir-ok dir fs fs' e' in
          let files = ap (λ (f : Files). f.files) removed.1 in
          let other : q ≢ dir = λ same. true_ne (
            sym h
            ∙ ap (λ (x : List (List ℕ)). any_below x (file_paths fs.files)) same
            ∙ removed.0) in
          rw (e, e')
            (prune_up-kept q up fs' (
                ap (λ (f : List (List (List ℕ) × List ℕ)). any_below q (file_paths f)) (sym files)
                ∙ h)
              ∙ ap (λ (f : Files). listed q f.dirs) (sym removed.1)
              ∙ listed_other-without_dir dir q fs.dirs other)
    ]
  ]

  -- The first directory on the way up is gone, or has something below it.
  prune_up-first :
      (p : List ℕ) (up : List (List ℕ)) (fs : Files)
      → reverse (p ∷ up) ≢ root
      → (listed (reverse (p ∷ up)) (prune_up root (p ∷ up) fs).dirs ≡ false)
        ⊎ (has_below (reverse (p ∷ up)) (prune_up root (p ∷ up) fs) ≡ true)
  unfolding prune_up
  prune_up-first p up fs h =
      let dir = reverse (p ∷ up) in
      elim (Result-cases (remove_dir dir fs)) [
        | inr (x, e) ↦ rw (path_ne dir root h, e) (remove_dir-err dir fs x e)
        | inl (fs', e) ↦
            let done = ap (λ (f : Files). f.dirs) (remove_dir-ok dir fs fs' e).1 in
            rw (path_ne dir root h, e)
              (inl (
                prune_up-absent dir up fs'
                  (ap (listed dir) (sym done) ∙ listed-without_dir dir fs.dirs)))
      ]

below-snoc : (d : List (List ℕ)) (p : List ℕ) → below d (d ++ p ∷ []) ≡ true
unfolding below
below-snoc [] p = refl
below-snoc (c ∷ d) p = rw (bytes_eq_refl c) (below-snoc d p)

any_below-listed :
    (d q : List (List ℕ)) (ds : List (List (List ℕ)))
    → below d q ≡ true
    → listed q ds ≡ true
    → any_below d ds ≡ true
unfolding any_below listed
any_below-listed d q [] h k = cc
any_below-listed d q (x ∷ ds) h k = elim (Bool-cases (path_eq q x)) [
  | inl e ↦ let here : below d x ≡ true = ap (below d) (sym (path_eq→eq q x e)) ∙ h in rw here refl
  | inr e ↦ or_true (below d x) (any_below d ds) (any_below-listed d q ds h (rw e at k))
]

pub parent-snoc : (ps : List (List ℕ)) (p : List ℕ) → parent (ps ++ p ∷ []) ≡ ps
unfolding parent
parent-snoc [] p = refl
parent-snoc (q ∷ []) p = refl
parent-snoc (q ∷ r ∷ ps) p = ap (λ (t : List (List ℕ)). q ∷ t) (parent-snoc (r ∷ ps) p)

-- The directory of a file that is gone is gone too, or has something below it, and each directory that
-- has a file below it stays.
pub prune_empty_parents-parent :
    (root above : List (List ℕ)) (dir file : List ℕ) (fs : Files)
    → above ++ dir ∷ [] ≢ root
    → (listed
          (parent ((above ++ dir ∷ []) ++ file ∷ []))
          (prune_empty_parents root ((above ++ dir ∷ []) ++ file ∷ []) fs).dirs
        ≡ false)
      ⊎ (has_below
            (parent ((above ++ dir ∷ []) ++ file ∷ []))
            (prune_empty_parents root ((above ++ dir ∷ []) ++ file ∷ []) fs)
          ≡ true)
unfolding prune_empty_parents
prune_empty_parents-parent root above dir file fs h =
    let turned : reverse ((above ++ dir ∷ []) ++ file ∷ []) ≡ file ∷ dir ∷ reverse above =
      reverse-append (above ++ dir ∷ []) (file ∷ [])
      ∙ ap (λ (t : List (List ℕ)). file ∷ t) (reverse-append above (dir ∷ [])) in
    let back : reverse (dir ∷ reverse above) ≡ above ++ dir ∷ [] =
      ap reverse (sym (reverse-append above (dir ∷ []))) ∙ reverse-reverse (above ++ dir ∷ []) in
    rw (parent-snoc (above ++ dir ∷ []) file, turned, ← back)
      (prune_up-first root dir (reverse above) fs (λ e. h (sym back ∙ e)))

-- So is the directory above it, unless that is the root of the pruning.
prune_up-second :
    (root : List (List ℕ)) (p p' : List ℕ) (up : List (List ℕ)) (fs : Files)
    → listed (reverse (p ∷ p' ∷ up)) fs.dirs ≡ true
    → reverse (p ∷ p' ∷ up) ≢ root
    → reverse (p' ∷ up) ≢ root
    → (listed (reverse (p' ∷ up)) (prune_up root (p ∷ p' ∷ up) fs).dirs ≡ false)
      ⊎ (has_below (reverse (p' ∷ up)) (prune_up root (p ∷ p' ∷ up) fs) ≡ true)
unfolding prune_up
prune_up-second root p p' up fs there h h' =
    let dir = reverse (p ∷ p' ∷ up) in
    let upper = reverse (p' ∷ up) in
    elim (Result-cases (remove_dir dir fs)) [
      | inr (x, e) ↦
          let inside : below upper dir ≡ true =
            ap (below upper) (reverse-cons p (p' ∷ up)) ∙ below-snoc upper p in
          rw (path_ne dir root h, e)
            (inr (
              or_true (any_below upper (file_paths fs.files)) (any_below upper fs.dirs)
                (any_below-listed upper dir fs.dirs inside there)))
      | inl (fs', e) ↦ rw (path_ne dir root h, e) (prune_up-first root p' up fs' h')
    ]

pub prune_empty_parents-grandparent :
    (root above : List (List ℕ)) (upper dir file : List ℕ) (fs : Files)
    → listed ((above ++ upper ∷ []) ++ dir ∷ []) fs.dirs ≡ true
    → (above ++ upper ∷ []) ++ dir ∷ [] ≢ root
    → above ++ upper ∷ [] ≢ root
    → (listed
          (above ++ upper ∷ [])
          (prune_empty_parents root (((above ++ upper ∷ []) ++ dir ∷ []) ++ file ∷ []) fs).dirs
        ≡ false)
      ⊎ (has_below
            (above ++ upper ∷ [])
            (prune_empty_parents root (((above ++ upper ∷ []) ++ dir ∷ []) ++ file ∷ []) fs)
          ≡ true)
unfolding prune_empty_parents
prune_empty_parents-grandparent root above upper dir file fs there h h' =
    let path = (above ++ upper ∷ []) ++ dir ∷ [] in
    let turned : reverse path ≡ dir ∷ upper ∷ reverse above =
      reverse-append (above ++ upper ∷ []) (dir ∷ [])
      ∙ ap (λ (t : List (List ℕ)). dir ∷ t) (reverse-append above (upper ∷ [])) in
    let turned' : reverse (path ++ file ∷ []) ≡ file ∷ dir ∷ upper ∷ reverse above =
      reverse-append path (file ∷ []) ∙ ap (λ (t : List (List ℕ)). file ∷ t) turned in
    let back : reverse (dir ∷ upper ∷ reverse above) ≡ path =
      ap reverse (sym turned) ∙ reverse-reverse path in
    let back' : reverse (upper ∷ reverse above) ≡ above ++ upper ∷ [] =
      ap reverse (sym (reverse-append above (upper ∷ [])))
      ∙ reverse-reverse (above ++ upper ∷ []) in
    rw (turned', ← back')
      (prune_up-second root dir upper (reverse above) fs
        (ap (λ (q : List (List ℕ)). listed q fs.dirs) back ∙ there) (λ e. h (sym back ∙ e))
        (λ e. h' (sym back' ∙ e)))
