-- ===== src/Library.antt =====
-- goldboot/src/library.rs, `ImageLibrary`: the images of a machine, at `<name>/<tag>.gb` or
-- `<host>/<name>/<tag>.gb` below a directory.
pub mod Newest
pub mod Addressed
pub mod Prune
pub mod Changes
pub mod Paths
mod Tests
use goldboot.Base.{
  ℕ, zero, suc, Bool, true, false, ◌&&◌, ◌||◌, not, List, [], ◌∷◌, ◌++◌, Option, none, some, length,
  ltb, drop, bytes_eq, if◌then◌else◌, Result, ok, err, bind, not_found, missing_tag, write_failed,
}
use mathlib.Core.List.{reverse}
use goldboot.Crates.{Crates}
use goldboot.Files.{
  join, parent, Files, path_eq, listed, read_file, create_dir_all, rename, remove_file,
}
use goldboot.Handle.{ImageHandle, open_image}
use goldboot.Reference.{
  ImageRef, host_bare, rfind, strip_prefix, validate_part, validate_ref_segment,
  validate_host_segment,
}

-- ".gb".
abbrev pub dot_gb : List ℕ
dot_gb = b'.' ∷ b'g' ∷ b'b' ∷ []

-- The directory of an image's tags, below the library or below a host.
unfoldable pub name_dir : List (List ℕ) → Option (List ℕ) → List ℕ → List (List ℕ)
name_dir directory none name = join directory name
name_dir directory (some host) name = join (join directory host) name

abbrev pub concrete_tag : Option (List ℕ) → Result (List ℕ)
concrete_tag none = err missing_tag
concrete_tag (some tag) = ok tag

unfoldable pub library_path : List (List ℕ) → ImageRef → Result (List (List ℕ))
library_path directory r = bind (validate_ref_segment r.name) λ name_ok.
    bind (concrete_tag r.tag) λ tag. bind (validate_ref_segment tag) λ tag_ok.
      bind (validate_part validate_host_segment (host_bare r))
        λ host_ok. ok (join (name_dir directory (host_bare r) r.name) (tag ++ dot_gb))

-- A staged file is moved to the path of its reference.
unfoldable pub add_built :
    List (List ℕ) → List (List ℕ) → ImageRef → Files → Result (Files × List (List ℕ))
add_built directory staged_path r fs = bind (library_path directory r) λ dest.
    bind (create_dir_all (parent dest) fs)
      λ fs1. bind (rename staged_path dest fs1) λ fs2. ok (fs2, dest)

-- Whether a path lies below a directory.
unfoldable pub below : List (List ℕ) → List (List ℕ) → Bool
below [] [] = false
below [] (p ∷ ps) = true
below (d ∷ ds) [] = false
below (d ∷ ds) (p ∷ ps) = if bytes_eq d p then below ds ps else false

unfoldable pub any_below : List (List ℕ) → List (List (List ℕ)) → Bool
any_below dir [] = false
any_below dir (p ∷ ps) = below dir p || any_below dir ps

abbrev pub file_paths : List (List (List ℕ) × List ℕ) → List (List (List ℕ))
file_paths [] = []
file_paths ((p, bytes) ∷ files) = p ∷ file_paths files

unfoldable pub without_dir : List (List ℕ) → List (List (List ℕ)) → List (List (List ℕ))
without_dir p [] = []
without_dir p (q ∷ ds) = if path_eq p q then without_dir p ds else q ∷ without_dir p ds

-- `remove_dir`: it fails unless the directory is there and empty.
unfoldable pub remove_dir : List (List ℕ) → Files → Result Files
remove_dir dir fs =
    if not (listed dir fs.dirs) || any_below dir (file_paths fs.files) || any_below dir fs.dirs
    then err write_failed
    else ok (record fs { dirs = without_dir dir fs.dirs })

-- The loop over the parents; a path is turned round, so that its parent is its tail.
unfoldable pub prune_up : List (List ℕ) → List (List ℕ) → Files → Files
prune_up root [] fs = fs
prune_up root (c ∷ up) fs =
    if path_eq (reverse (c ∷ up)) root
    then fs
    else elim (remove_dir (reverse (c ∷ up)) fs) [ err e ↦ fs | ok fs' ↦ prune_up root up fs' ]

unfoldable pub prune_empty_parents : List (List ℕ) → List (List ℕ) → Files → Files
prune_empty_parents root path fs = prune_up root (drop 1 (reverse path)) fs

unfoldable pub delete : List (List ℕ) → ImageRef → Files → Result (Files × List (List ℕ))
delete directory r fs =
    bind (library_path directory r)
      λ path. bind (remove_file path fs) λ fs1. ok (prune_empty_parents directory path fs1, path)

-- `path.extension() == Some("gb")` of a file's name.
unfoldable pub has_gb_extension : List ℕ → Bool
has_gb_extension name = elim (rfind b'.' name) [
  | none ↦ false
  | some zero ↦ false
  | some (suc i) ↦ bytes_eq (drop (suc (suc i)) name) (b'g' ∷ b'b' ∷ [])
]

-- The name of a file that stands in a directory.
unfoldable pub file_in : List (List ℕ) → List (List ℕ) → Option (List ℕ)
file_in [] (name ∷ []) = some name
file_in [] [] = none
file_in [] (name ∷ more ∷ rest) = none
file_in (d ∷ ds) [] = none
file_in (d ∷ ds) (p ∷ ps) = if bytes_eq d p then file_in ds ps else none

abbrev in_dir : List (List ℕ) → List (List ℕ) → Bool
in_dir dir p = elim (file_in dir p) [ none ↦ false | some name ↦ has_gb_extension name ]

-- The images of a directory that open; unreadable ones are skipped.
unfoldable pub opened : Crates → List (List ℕ) → List (List (List ℕ) × List ℕ) → List ImageHandle
opened c dir [] = []
opened c dir ((p, bytes) ∷ files) =
    let rest = opened c dir files in
    if in_dir dir p
    then elim (open_image c bytes) [ ok handle ↦ handle ∷ rest | err e ↦ rest ]
    else rest

unfoldable pub better : Option ImageHandle → ImageHandle → Option ImageHandle
better none handle = some handle
better (some prev) handle =
    if ltb prev.primary_header.timestamp handle.primary_header.timestamp
    then some handle
    else some prev

unfoldable pub newest : Option ImageHandle → List ImageHandle → Option ImageHandle
newest best [] = best
newest best (h ∷ hs) = newest (better best h) hs

abbrev pub or_not_found : Option ImageHandle → Result ImageHandle
or_not_found none = err not_found
or_not_found (some handle) = ok handle

unfoldable pub find_tagged : Crates → List (List ℕ) → ImageRef → Files → Result ImageHandle
find_tagged c directory r fs =
    bind (library_path directory r) λ path. bind (read_file path fs) λ bytes. open_image c bytes

-- The entries of a directory are taken in the order of the list of files.
unfoldable pub find_untagged : Crates → List (List ℕ) → ImageRef → Files → Result ImageHandle
find_untagged c directory r fs =
    let dir = name_dir directory (host_bare r) r.name in
    if listed dir fs.dirs then or_not_found (newest none (opened c dir fs.files)) else err not_found

unfoldable pub find_by_ref : Crates → List (List ℕ) → ImageRef → Files → Result ImageHandle
find_by_ref c directory r fs = bind (validate_ref_segment r.name) λ name_ok.
    bind (validate_part validate_host_segment (host_bare r)) λ host_ok. elim r.tag [
      | none ↦ find_untagged c directory r fs
      | some tag ↦ find_tagged c directory r fs
    ]
