-- ===== src/Files.antt =====
-- The parts of `std::fs` and `std::path` that the image stores use. A path is the list of the
-- components that the system resolves it to, each the list of its bytes, from the root on; there are no
-- symbolic links. The files are those the process may read and write.
pub mod Laws
pub mod Plain
use goldboot.Base.{
  ℕ, zero, suc, ◌+◌, Bool, true, false, ◌&&◌, ◌||◌, not, List, [], ◌∷◌, ◌++◌, Option, none, some,
  take, length, ◌==◌, bytes_eq, if◌then◌else◌, Result, ok, err, bind, not_found, write_failed,
}
use goldboot.Reference.{dot, dot_dot, rfind}

abbrev pub path_eq : List (List ℕ) → List (List ℕ) → Bool
path_eq [] [] = true
path_eq [] (q ∷ qs) = false
path_eq (p ∷ ps) [] = false
path_eq (p ∷ ps) (q ∷ qs) = if bytes_eq p q then path_eq ps qs else false

-- The pieces of a text between its slashes.
unfoldable pub split_slash : List ℕ → List ℕ → List (List ℕ)
split_slash part [] = part ∷ []
split_slash part (b ∷ bs) =
    let closed = part ∷ split_slash [] bs in
    let longer = split_slash (part ++ b ∷ []) bs in if b == b'/' then closed else longer

-- `parent`.
unfoldable pub parent : List (List ℕ) → List (List ℕ)
parent [] = []
parent (p ∷ []) = []
parent (p ∷ q ∷ ps) = p ∷ parent (q ∷ ps)

-- One piece: an empty one and "." stay, ".." goes up.
unfoldable pub resolve : List (List ℕ) → List ℕ → List (List ℕ)
unfolding parent
resolve p part =
    if bytes_eq part [] || bytes_eq part dot
    then p
    else if bytes_eq part dot_dot
    then parent p
    else p ++ part ∷ []

unfoldable pub resolve_all : List (List ℕ) → List (List ℕ) → List (List ℕ)
unfolding resolve
resolve_all p [] = p
resolve_all p (part ∷ parts) = resolve_all (resolve p part) parts

abbrev pub is_absolute : List ℕ → Bool
is_absolute [] = false
is_absolute (b ∷ bs) = b == b'/'

-- `join` of a text, which replaces the path when it starts with a slash.
unfoldable pub join : List (List ℕ) → List ℕ → List (List ℕ)
unfolding split_slash resolve_all
join p s = resolve_all (if is_absolute s then [] else p) (split_slash [] s)

pub record Files : Type 0 where
  pub files : List (List (List ℕ) × List ℕ)
  pub dirs : List (List (List ℕ))

unfoldable pub lookup : List (List ℕ) → List (List (List ℕ) × List ℕ) → Option (List ℕ)
lookup p [] = none
lookup p ((q, bytes) ∷ files) = if path_eq p q then some bytes else lookup p files

unfoldable pub without :
    List (List ℕ) → List (List (List ℕ) × List ℕ) → List (List (List ℕ) × List ℕ)
without p [] = []
without p ((q, bytes) ∷ files) =
    if path_eq p q then without p files else (q, bytes) ∷ without p files

unfoldable pub listed : List (List ℕ) → List (List (List ℕ)) → Bool
listed p [] = false
listed p (q ∷ ds) = path_eq p q || listed p ds

abbrev pub exists_file : List (List ℕ) → Files → Bool
exists_file p fs = elim (lookup p fs.files) [ none ↦ false | some bytes ↦ true ]

abbrev pub put_file : List (List ℕ) → List ℕ → Files → Files
put_file p bytes fs = record fs { files = (p, bytes) ∷ without p fs.files }

abbrev pub found : Option (List ℕ) → Result (List ℕ)
found none = err not_found
found (some bytes) = ok bytes

-- `read`, and `File::open` with what is read of it.
unfoldable pub read_file : List (List ℕ) → Files → Result (List ℕ)
read_file p fs = found (lookup p fs.files)

-- `File::create`: it empties a file that is there, and fails on a directory.
unfoldable pub create_file : List (List ℕ) → Files → Result Files
create_file p fs = if listed p fs.dirs then err write_failed else ok (put_file p [] fs)

abbrev pub add_dir : List (List ℕ) → Files → Files
add_dir p fs = if listed p fs.dirs then fs else record fs { dirs = p ∷ fs.dirs }

-- `create_dir_all` below `at`: it fails where a file is in the way.
unfoldable pub create_dirs : List (List ℕ) → List (List ℕ) → Files → Result Files
create_dirs at [] fs = ok fs
create_dirs at (p ∷ ps) fs =
    let here = at ++ p ∷ [] in
    if exists_file here fs then err write_failed else create_dirs here ps (add_dir here fs)

unfoldable pub create_dir_all : List (List ℕ) → Files → Result Files
create_dir_all p fs = create_dirs [] p fs

-- `rename` of a file onto a path, over the file that may be there.
unfoldable pub rename : List (List ℕ) → List (List ℕ) → Files → Result Files
rename from to fs = bind (read_file from fs) λ bytes.
    if listed to fs.dirs
    then err write_failed
    else ok (put_file to bytes (record fs { files = without from fs.files }))

unfoldable pub remove_file : List (List ℕ) → Files → Result Files
remove_file p fs = bind (read_file p fs) λ bytes. ok (record fs { files = without p fs.files })

abbrev pub dotted : List ℕ → Option ℕ → List ℕ → List ℕ
dotted name none ext = name ++ b'.' ∷ ext
dotted name (some zero) ext = name ++ b'.' ∷ ext
dotted name (some (suc i)) ext = take (suc i) name ++ b'.' ∷ ext

-- `with_extension` on a file's name: what stands behind its last dot is replaced, unless that dot comes
-- first.
unfoldable pub with_extension : List ℕ → List ℕ → List ℕ
with_extension name ext = dotted name (rfind b'.' name) ext

-- `with_extension` of a path.
unfoldable pub with_path_extension : List (List ℕ) → List ℕ → List (List ℕ)
unfolding with_extension
with_path_extension [] ext = []
with_path_extension (name ∷ []) ext = with_extension name ext ∷ []
with_path_extension (p ∷ q ∷ ps) ext = p ∷ with_path_extension (q ∷ ps) ext
