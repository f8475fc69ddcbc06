-- ===== src/Library/Changes.antt =====
-- Adding and deleting images.
use goldboot.Base.{
  subst, arith, length, length-append, ◌⊎◌, false, true, ℕ, List, [], ◌∷◌, ◌++◌, drop, Option, none,
  some, Result, ok, err, bind, bind-eq-ok, append_assoc, not_found, ◌≡◌, ◌≢◌, refl, sym, ap, ◌∙◌,
  inl, inr, Bool-cases,
}
use mathlib.Core.List.{reverse}
use goldboot.Crates.{Crates}
use goldboot.Files.{
  parent, without, Files, listed, lookup, found, read_file, create_dir_all, rename, remove_file,
}
use goldboot.Files.Laws.{
  read_file-create_dir_all, read_file-rename, read_other-remove_file, read_file-remove_file,
}
use goldboot.Handle.{open_image}
use goldboot.Reference.{ImageRef, host_bare}
use goldboot.Library.Prune.{
  IsPruned, parent-snoc, prune_empty_parents-grandparent, has_below, prune_up_files, prune_up-kept,
  prune_empty_parents-parent,
}
use goldboot.Library.Addressed.{parts, IsAddressed, library_path-IsAddressed}
use goldboot.Library.{
  dot_gb, library_path, add_built, prune_empty_parents, delete, any_below, file_paths, find_tagged,
  find_by_ref,
}

-- A reference that has a path is found at its path.
find_at_path :
    (c : Crates) (directory path : List (List ℕ)) (r : ImageRef) (fs : Files)
    → library_path directory r ≡ ok path
    → find_by_ref c directory r fs ≡ bind (read_file path fs) (open_image c)
unfolding find_by_ref find_tagged
find_at_path c directory path r fs at =
    let a = library_path-IsAddressed directory path r at in
    rw (a.named, a.hosted, a.tagged, at) refl

-- An image that was added is found under its reference, tag included: what opens is the staged file.
pub find_by_ref-add_built :
    (c : Crates) (directory staged_path dest : List (List ℕ)) (r : ImageRef) (fs fs' : Files)
    → add_built directory staged_path r fs ≡ ok (fs', dest)
    → find_by_ref c directory r fs' ≡ bind (read_file staged_path fs) (open_image c)
unfolding add_built
find_by_ref-add_built c directory staged_path dest r fs fs' h =
    let path = bind-eq-ok (library_path directory r) _ h in
    let made = bind-eq-ok (create_dir_all (parent path.0) fs) _ path.2 in
    let moved = bind-eq-ok (rename staged_path path.0 made.0) _ made.2 in
    let last : moved.0 ≡ fs' = let pair = moved.2 in cc in
    find_at_path c directory path.0 r fs' path.1
    ∙ ap (λ (f : Files). bind (read_file path.0 f) (open_image c)) (sym last)
    ∙ ap (λ (b : Result (List ℕ)). bind b (open_image c))
        (read_file-rename staged_path path.0 made.0 moved.0 moved.1
          ∙ read_file-create_dir_all (parent path.0) staged_path fs made.0 made.1)

-- The path of an image is below a directory of its own, below the library's.
own_dir :
    (directory : List (List ℕ)) (host : Option (List ℕ)) (name tag : List ℕ)
    → (above : List (List ℕ)) × (dir : List ℕ) × (directory ++ parts host name tag
        ≡ (above ++ dir ∷ []) ++ (tag ++ dot_gb) ∷ [])
      × (above ++ dir ∷ [] ≢ directory)
own_dir directory none name tag = (
  directory,
  name,
  sym (append_assoc directory (name ∷ []) ((tag ++ dot_gb) ∷ [])),
  λ e. absurd (omega (arith, length-append directory (name ∷ []), ap length e)),
)
own_dir directory (some host) name tag = (
  directory ++ host ∷ [],
  name,
  sym (
      append_assoc (directory ++ host ∷ []) (name ∷ []) ((tag ++ dot_gb) ∷ [])
      ∙ append_assoc directory (host ∷ []) (name ∷ (tag ++ dot_gb) ∷ [])),
  λ e. absurd (
      omega (
        arith,
        length-append directory (host ∷ []),
        length-append (directory ++ host ∷ []) (name ∷ []),
        ap length e,
      )),
)

-- What a delete leaves.
deleted :
    (directory path : List (List ℕ)) (r : ImageRef) (fs fs' : Files)
    → delete directory r fs ≡ ok (fs', path)
    → (library_path directory r ≡ ok path)
      × (fs1 : Files) × (remove_file path fs ≡ ok fs1)
      × (prune_empty_parents directory path fs1 ≡ fs')
unfolding delete
deleted directory path r fs fs' h =
    let at = bind-eq-ok (library_path directory r) _ h in
    let gone = bind-eq-ok (remove_file at.0 fs) _ at.2 in
    let same : at.0 ≡ path = let pair = gone.2 in cc in
    let last : prune_empty_parents directory at.0 gone.0 ≡ fs' = let pair = gone.2 in cc in
    (
      at.1 ∙ ap ok same,
      gone.0,
      ap (λ (p : List (List ℕ)). remove_file p fs) (sym same) ∙ gone.1,
      ap (λ (p : List (List ℕ)). prune_empty_parents directory p gone.0) (sym same) ∙ last,
    )

remove_file-dirs :
    (path : List (List ℕ)) (fs fs' : Files) → remove_file path fs ≡ ok fs' → fs'.dirs ≡ fs.dirs
unfolding remove_file
remove_file-dirs path fs fs' h =
    let read = bind-eq-ok (read_file path fs) _ h in
    let same : record fs { files = without path fs.files } ≡ fs' = let last = read.2 in cc in
    ap (λ (f : Files). f.dirs) (sym same)

prune_files :
    (directory path : List (List ℕ)) (fs : Files)
    → (prune_empty_parents directory path fs).files ≡ fs.files
unfolding prune_empty_parents
prune_files directory path fs = prune_up_files directory (drop 1 (reverse path)) fs

prune_keeps :
    (directory path q : List (List ℕ)) (fs : Files)
    → (listed q (prune_empty_parents directory path fs).dirs ≡ listed q fs.dirs)
      ⊎ (any_below q (file_paths fs.files) ≡ false)
unfolding prune_empty_parents
prune_keeps directory path q fs = elim (Bool-cases (any_below q (file_paths fs.files))) [
  | inl e ↦ inl (prune_up-kept directory q (drop 1 (reverse path)) fs e)
  | inr e ↦ inr e
]

prune_parent :
    (directory path : List (List ℕ)) (r : ImageRef) (fs : Files)
    → IsAddressed directory r path
    → (listed (parent path) (prune_empty_parents directory path fs).dirs ≡ false)
      ⊎ (has_below (parent path) (prune_empty_parents directory path fs) ≡ true)
prune_parent directory path r fs a =
    let (above, dir, parts_of, other) = own_dir directory (host_bare r) r.name a.tag in
    subst
      (λ (p : List (List ℕ)).
        (listed (parent p) (prune_empty_parents directory p fs).dirs ≡ false)
        ⊎ (has_below (parent p) (prune_empty_parents directory p fs) ≡ true))
      (sym (a.at ∙ parts_of))
      (prune_empty_parents-parent directory above dir (a.tag ++ dot_gb) fs other)

-- The directory above the image's own: the library's, or a host's.
prune_host :
    (directory : List (List ℕ)) (host : Option (List ℕ)) (name tag : List ℕ) (fs : Files)
    → listed (parent (directory ++ parts host name tag)) fs.dirs ≡ true
    → IsPruned directory
        (parent (parent (directory ++ parts host name tag)))
        (prune_empty_parents directory (directory ++ parts host name tag) fs)
prune_host directory none name tag fs there = inl (
    ap (λ (p : List (List ℕ)). parent (parent p))
      (sym (append_assoc directory (name ∷ []) ((tag ++ dot_gb) ∷ [])))
    ∙ ap parent (parent-snoc (directory ++ name ∷ []) (tag ++ dot_gb))
    ∙ parent-snoc directory name)
prune_host directory (some host) name tag fs there =
    let file = tag ++ dot_gb in
    let upper = directory ++ host ∷ [] in
    let split : directory ++ parts (some host) name tag ≡ (upper ++ name ∷ []) ++ file ∷ [] = sym (
      append_assoc upper (name ∷ []) (file ∷ [])
      ∙ append_assoc directory (host ∷ []) (name ∷ file ∷ [])) in
    let own : parent ((upper ++ name ∷ []) ++ file ∷ []) ≡ upper ++ name ∷ [] =
      parent-snoc (upper ++ name ∷ []) file in
    let above : parent (parent ((upper ++ name ∷ []) ++ file ∷ [])) ≡ upper =
      ap parent own ∙ parent-snoc upper name in
    let long = length-append directory (host ∷ []) in
    let there' : listed (upper ++ name ∷ []) fs.dirs ≡ true =
      ap (λ (p : List (List ℕ)). listed p fs.dirs) (sym own ∙ sym (ap parent split)) ∙ there in
    subst
      (λ (p : List (List ℕ)).
        IsPruned directory (parent (parent p)) (prune_empty_parents directory p fs))
      (sym split)
      (subst
        (λ (p : List (List ℕ)).
          IsPruned directory p
            (prune_empty_parents directory ((upper ++ name ∷ []) ++ file ∷ []) fs))
        (sym above)
        (inr (
          prune_empty_parents-grandparent directory directory host name file fs there'
            (λ e. absurd (omega (arith, long, length-append upper (name ∷ []), ap length e)))
            (λ e. absurd (omega (arith, long, ap length e))))))

-- An image that was deleted is not found any more under its reference, and every other file is as it
-- was. The directory that it stood in, which must have been there, is gone unless a file or a directory
-- is below it still, and so is the one above it, which may be a host's, unless it is the library's. Each
-- directory that a file is below stays.
pub find_by_ref-delete :
    (c : Crates) (directory path : List (List ℕ)) (r : ImageRef) (fs fs' : Files)
    → listed (parent path) fs.dirs ≡ true
    → delete directory r fs ≡ ok (fs', path)
    → (find_by_ref c directory r fs' ≡ err not_found)
      × ((q : List (List ℕ)) → q ≢ path → read_file q fs' ≡ read_file q fs)
      × ((listed (parent path) fs'.dirs ≡ false) ⊎ (has_below (parent path) fs' ≡ true))
      × IsPruned directory (parent (parent path)) fs'
      × ((q : List (List ℕ))
          → (listed q fs'.dirs ≡ listed q fs.dirs) ⊎ (any_below q (file_paths fs'.files) ≡ false))
unfolding read_file
find_by_ref-delete c directory path r fs fs' there h =
    let (at, fs1, gone, pruned) = deleted directory path r fs fs' h in
    let a = library_path-IsAddressed directory path r at in
    let same : fs'.files ≡ fs1.files =
      ap (λ (f : Files). f.files) (sym pruned) ∙ prune_files directory path fs1 in
    let reads : (q : List (List ℕ)) → read_file q fs' ≡ read_file q fs1 =
      λ q. ap (λ (files : List (List (List ℕ) × List ℕ)). found (lookup q files)) same in
    (
      find_at_path c directory path r fs' at
          ∙ ap (λ (b : Result (List ℕ)). bind b (open_image c))
              (reads path ∙ read_file-remove_file path fs fs1 gone),
      λ q other. reads q ∙ read_other-remove_file path fs fs1 gone q other,
      subst
          (λ (f : Files).
            (listed (parent path) f.dirs ≡ false) ⊎ (has_below (parent path) f ≡ true))
          pruned (prune_parent directory path r fs1 a),
      subst (IsPruned directory (parent (parent path))) pruned (
          subst
            (λ (p : List (List ℕ)).
              IsPruned directory (parent (parent p)) (prune_empty_parents directory p fs1))
            (sym a.at)
            (prune_host directory (host_bare r) r.name a.tag fs1 (
              ap (λ (p : List (List ℕ)). listed (parent p) fs1.dirs) (sym a.at)
              ∙ ap (listed (parent path)) (remove_file-dirs path fs fs1 gone)
              ∙ there))),
      λ q. elim (prune_keeps directory path q fs1) [
        | inl kept ↦ inl (
            ap (λ (f : Files). listed q f.dirs) (sym pruned)
            ∙ kept
            ∙ ap (listed q) (remove_file-dirs path fs fs1 gone))
        | inr none_below ↦ inr (
            ap (λ (files : List (List (List ℕ) × List ℕ)). any_below q (file_paths files)) same
            ∙ none_below)
      ],
    )
