-- ===== src/Files/Laws.antt =====
-- Files at other paths are kept by every operation.
use goldboot.Base.{
  none, err, not_found, ℕ, true, false, List, [], ◌∷◌, ◌++◌, some, bytes_eq, bytes_eq→eq,
  bytes_eq_refl, ok, bind-eq-ok, Bool-cases, ◌≡◌, ◌≢◌, refl, sym, ap, ◌∙◌, inl, inr,
}
use goldboot.Files.{
  remove_file, Files, path_eq, lookup, without, listed, put_file, read_file, create_file,
  create_dirs, create_dir_all, rename, found, add_dir, exists_file,
}

pub path_eq→eq : (p q : List (List ℕ)) → path_eq p q ≡ true → p ≡ q
path_eq→eq [] [] h = refl
path_eq→eq [] (q ∷ qs) h = cc
path_eq→eq (p ∷ ps) [] h = cc
path_eq→eq (p ∷ ps) (q ∷ qs) h = elim (Bool-cases (bytes_eq p q)) [
  | inl e ↦
      let rest = path_eq→eq ps qs (rw e at h) in
      let first = bytes_eq→eq p q e in λ i. first i ∷ rest i
  | inr e ↦ let no = rw e at h in cc
]

pub path_eq_refl : (p : List (List ℕ)) → path_eq p p ≡ true
path_eq_refl [] = refl
path_eq_refl (p ∷ ps) = rw (bytes_eq_refl p) (path_eq_refl ps)

pub path_ne : (p q : List (List ℕ)) → p ≢ q → path_eq p q ≡ false
path_ne p q h = elim (Bool-cases (path_eq p q)) [
  | inl e ↦ absurd (h (path_eq→eq p q e))
  | inr e ↦ e
]

pub lookup-without :
    (p q : List (List ℕ)) (files : List (List (List ℕ) × List ℕ))
    → q ≢ p
    → lookup q (without p files) ≡ lookup q files
unfolding lookup without
lookup-without p q [] h = refl
lookup-without p q ((r, bytes) ∷ files) h = elim (Bool-cases (path_eq p r)) [
  | inl e ↦
      let other = path_ne q r (λ e'. h (e' ∙ sym (path_eq→eq p r e))) in
      rw (e, other) (lookup-without p q files h)
  | inr e ↦ rw e (elim (Bool-cases (path_eq q r)) [
    | inl e' ↦ rw e' refl
    | inr e' ↦ rw e' (lookup-without p q files h)
  ])
]

module _ (p : List (List ℕ)) (bytes : List ℕ) (fs : Files) where
  lookup-put_file : lookup p (put_file p bytes fs).files ≡ some bytes
  unfolding lookup
  lookup-put_file = rw (path_eq_refl p) refl

  lookup_other-put_file :
      (q : List (List ℕ)) → q ≢ p → lookup q (put_file p bytes fs).files ≡ lookup q fs.files
  unfolding lookup
  lookup_other-put_file q h = rw (path_ne q p h) (lookup-without p q fs.files h)

  pub read_file-put_file : read_file p (put_file p bytes fs) ≡ ok bytes
  unfolding read_file
  read_file-put_file = ap found lookup-put_file

  pub read_other-put_file :
      (q : List (List ℕ)) → q ≢ p → read_file q (put_file p bytes fs) ≡ read_file q fs
  unfolding read_file
  read_other-put_file q h = ap found (lookup_other-put_file q h)

pub read_other-create_file :
    (p q : List (List ℕ)) (fs fs' : Files)
    → q ≢ p
    → create_file p fs ≡ ok fs'
    → read_file q fs' ≡ read_file q fs
unfolding create_file
read_other-create_file p q fs fs' h m = elim (Bool-cases (listed p fs.dirs)) [
  | inl e ↦ let no = rw e at m in cc
  | inr e ↦
      let made : put_file p [] fs ≡ fs' = let m' = rw e at m in cc in
      ap (read_file q) (sym made) ∙ read_other-put_file p [] fs q h
]

add_dir_files : (p : List (List ℕ)) (fs : Files) → (add_dir p fs).files ≡ fs.files
add_dir_files p fs = elim (Bool-cases (listed p fs.dirs)) [ inl e ↦ rw e refl | inr e ↦ rw e refl ]

create_dirs_files :
    (at ps : List (List ℕ)) (fs fs' : Files) → create_dirs at ps fs ≡ ok fs' → fs'.files ≡ fs.files
unfolding create_dirs
create_dirs_files at [] fs fs' m =
    let same : fs ≡ fs' = cc in ap (λ (s : Files). s.files) (sym same)
create_dirs_files at (p ∷ ps) fs fs' m = elim (Bool-cases (exists_file (at ++ p ∷ []) fs)) [
  | inl e ↦ let no = rw e at m in cc
  | inr e ↦
      create_dirs_files (at ++ p ∷ []) ps (add_dir (at ++ p ∷ []) fs) fs' (rw e at m)
      ∙ add_dir_files (at ++ p ∷ []) fs
]

pub read_file-create_dir_all :
    (p q : List (List ℕ)) (fs fs' : Files)
    → create_dir_all p fs ≡ ok fs'
    → read_file q fs' ≡ read_file q fs
unfolding create_dir_all read_file
read_file-create_dir_all p q fs fs' m =
    ap (λ (files : List (List (List ℕ) × List ℕ)). found (lookup q files))
      (create_dirs_files [] p fs fs' m)

module _ (from to : List (List ℕ)) (fs fs' : Files) (m : rename from to fs ≡ ok fs') where
  renamed :
      (bytes : List ℕ) × (read_file from fs ≡ ok bytes)
      × (fs' ≡ put_file to bytes (record fs { files = without from fs.files }))
  unfolding rename
  renamed =
      let read = bind-eq-ok (read_file from fs) _ m in
      elim (Bool-cases (listed to fs.dirs)) [
        | inl e ↦ let no = rw e at (read.2) in cc
        | inr e ↦ let moved = rw e at (read.2) in (read.0, read.1, cc)
      ]

  pub read_file-rename : read_file to fs' ≡ read_file from fs
  read_file-rename =
      ap (read_file to) (renamed.2) ∙ read_file-put_file to renamed.0 _ ∙ sym (renamed.1)

  pub read_other-rename : (q : List (List ℕ)) → q ≢ from → q ≢ to → read_file q fs' ≡ read_file q fs
  unfolding read_file
  read_other-rename q h h' =
      ap (read_file q) (renamed.2)
      ∙ read_other-put_file to renamed.0 (record fs { files = without from fs.files }) q h'
      ∙ ap found (lookup-without from q fs.files h)

lookup-without_same :
    (p : List (List ℕ)) (files : List (List (List ℕ) × List ℕ)) → lookup p (without p files) ≡ none
unfolding lookup without
lookup-without_same p [] = refl
lookup-without_same p ((q, bytes) ∷ files) = elim (Bool-cases (path_eq p q)) [
  | inl e ↦ rw e (lookup-without_same p files)
  | inr e ↦ rw (e, e) (lookup-without_same p files)
]

module _ (p : List (List ℕ)) (fs fs' : Files) (m : remove_file p fs ≡ ok fs') where
  removed : record fs { files = without p fs.files } ≡ fs'
  unfolding remove_file
  removed = let was = (bind-eq-ok (read_file p fs) _ m).2 in cc

  pub read_file-remove_file : read_file p fs' ≡ err not_found
  unfolding read_file
  read_file-remove_file = ap (read_file p) (sym removed) ∙ ap found (lookup-without_same p fs.files)

  pub read_other-remove_file : (q : List (List ℕ)) → q ≢ p → read_file q fs' ≡ read_file q fs
  unfolding read_file
  read_other-remove_file q h =
      ap (read_file q) (sym removed) ∙ ap found (lookup-without p q fs.files h)
