-- ===== src/Library/Tests.antt =====
-- A library with a staged file, and two images of which the second is newer.
use goldboot.Base.{
  ◌⊎◌, true, false, replicate, read_count, ◌>>=◌, ◌>>◌, read_be, read_exact, require, be_bytes,
  of_be, ℕ, List, [], ◌∷◌, ◌++◌, none, some, ok, err, bind, not_found, take, ◌≡◌, ◌≢◌, refl,
}
use goldboot.Crates.{Crates}
use goldboot.Files.{
  join, parent, split_slash, resolve, resolve_all, Files, read_file, listed, lookup, without,
  create_dir_all, create_dirs, rename, remove_file,
}
use goldboot.Format.{PrimaryHeader, HeaderEncryptionType, ImageArch}
use goldboot.Format.Write.{write_primary, write_all}
use goldboot.Format.Read.{read_primary, read_header_encryption, read_arch, read_element}
use goldboot.Handle.{ImageHandle, open_image}
use goldboot.Reference.{
  ImageRef, host_bare, validate_part, validate_ref_segment, check_bytes, rfind,
}
use goldboot.Library.{
  prune_empty_parents, prune_up, remove_dir, any_below, below, without_dir, file_in,
  has_gb_extension, name_dir, library_path, add_built, delete, opened, find_by_ref,
}
use goldboot.Library.Prune.{IsPruned, has_below}
use goldboot.Library.Paths.{library_path-injective}
use goldboot.Library.Changes.{find_by_ref-add_built, find_by_ref-delete}
use goldboot.Library.Newest.{find_by_ref-IsNewest, IsNewest}

abbrev directory : List (List ℕ)
directory = (b'l' ∷ []) ∷ []

abbrev staged_path : List (List ℕ)
staged_path = (b'l' ∷ []) ∷ (b't' ∷ []) ∷ []

abbrev ref : ImageRef
ref = record { host = none; name = b'a' ∷ []; tag = some (b'v' ∷ []) }

abbrev dest : List (List ℕ)
dest = (b'l' ∷ []) ∷ (b'a' ∷ []) ∷ (b'v' ∷ b'.' ∷ b'g' ∷ b'b' ∷ []) ∷ []

abbrev staged : Files
staged = record { files = (staged_path, 7 ∷ []) ∷ []; dirs = directory ∷ [] }

abbrev added : Files
added = record {
  files = (dest, 7 ∷ []) ∷ [];
  dirs = ((b'l' ∷ []) ∷ (b'a' ∷ []) ∷ []) ∷ directory ∷ [];
}

path_of_ref : library_path directory ref ≡ ok dest
unfolding library_path validate_ref_segment check_bytes validate_part host_bare name_dir join parent
    split_slash resolve resolve_all
path_of_ref = refl

library_path-injective_example :
    (host_bare ref ≡ host_bare ref) × (ref.name ≡ ref.name) × (ref.tag ≡ ref.tag)
library_path-injective_example =
    library_path-injective directory dest ref ref path_of_ref path_of_ref

adds : add_built directory staged_path ref staged ≡ ok (added, dest)
unfolding add_built library_path validate_ref_segment check_bytes validate_part host_bare name_dir
    join parent split_slash resolve resolve_all create_dir_all create_dirs lookup listed rename
    read_file without
adds = refl

deletes : delete directory ref added ≡ ok (record added { files = []; dirs = directory ∷ [] }, dest)
unfolding delete library_path validate_ref_segment check_bytes validate_part host_bare name_dir join
    parent split_slash resolve resolve_all lookup listed read_file without remove_file
    prune_empty_parents prune_up remove_dir any_below below without_dir
deletes = refl

abbrev crates : Crates
crates = record {
  sha256 = λ bytes. bytes;
  encrypt = λ key nonce plain. some plain;
  decrypt = λ key nonce sealed. some sealed;
  zstd_encode = λ bytes. some bytes;
  zstd_decode = λ bytes. some bytes;
  zlib_take = λ n bytes. some (take n bytes);
  zstd_take = λ n bytes. some (take n bytes);
  hex_encode = λ bytes. bytes;
}

find_by_ref-add_built_example :
    find_by_ref crates directory ref added ≡ bind (read_file staged_path staged) (open_image crates)
find_by_ref-add_built_example =
    find_by_ref-add_built crates directory staged_path dest ref staged added adds

own_dir_listed : listed (parent dest) added.dirs ≡ true
unfolding listed parent
own_dir_listed = refl

find_by_ref-delete_example :
    (find_by_ref crates directory ref (record added { files = []; dirs = directory ∷ [] })
      ≡ err not_found)
    × ((q : List (List ℕ))
        → q ≢ dest
        → read_file q (record added { files = []; dirs = directory ∷ [] }) ≡ read_file q added)
    × ((listed (parent dest) (directory ∷ []) ≡ false)
        ⊎ (has_below (parent dest) (record added { files = []; dirs = directory ∷ [] }) ≡ true))
    × IsPruned directory (parent (parent dest)) (record added { files = []; dirs = directory ∷ [] })
    × ((q : List (List ℕ))
        → (listed q (directory ∷ []) ≡ listed q added.dirs) ⊎ (any_below q [] ≡ false))
find_by_ref-delete_example =
    find_by_ref-delete crates directory dest ref added
      (record added { files = []; dirs = directory ∷ [] }) own_dir_listed deletes

-- Two files whose headers are sealed, stamped 1 and 2, under one name.
abbrev header : ℕ → PrimaryHeader
header timestamp = record {
  version = 2;
  size = 0;
  timestamp = timestamp;
  encryption_type = HeaderEncryptionType.aes256;
  element_count = 0;
  elements = [];
  arch = ImageArch.amd64;
  name_length = 0;
  name = [];
  tag_length = 0;
  tag = [];
  content_id = replicate 32 0;
  directory_nonce = replicate 12 0;
  directory_offset = 0;
  directory_size = 0;
}

abbrev handle : ℕ → ImageHandle
handle timestamp = record {
  primary_header = header timestamp;
  protected_header = none;
  digest_table = none;
  directory = none;
  file_size = 82;
  id = replicate 32 0;
}

abbrev untagged : ImageRef
untagged = record ref { tag = none }

abbrev name_path : List (List ℕ)
name_path = (b'l' ∷ []) ∷ (b'a' ∷ []) ∷ []

abbrev two_images : Files
two_images = record {
  files =
      (name_path ++ (b'u' ∷ b'.' ∷ b'g' ∷ b'b' ∷ []) ∷ [], write_primary (header 1))
      ∷ (name_path ++ (b'v' ∷ b'.' ∷ b'g' ∷ b'b' ∷ []) ∷ [], write_primary (header 2))
      ∷ [];
  dirs = name_path ∷ directory ∷ [];
}

both_open : opened crates name_path two_images.files ≡ handle 1 ∷ handle 2 ∷ []
unfolding opened file_in has_gb_extension rfind open_image write_primary read_primary
    read_header_encryption read_arch read_count read_element ◌>>=◌ ◌>>◌ read_be read_exact require
    be_bytes of_be write_all
both_open = refl

dir_of_untagged : name_dir directory (host_bare untagged) untagged.name ≡ name_path
unfolding name_dir host_bare join split_slash resolve resolve_all
dir_of_untagged = refl

find_by_ref-IsNewest_example :
    (h : ImageHandle) × (find_by_ref crates directory untagged two_images ≡ ok h)
    × IsNewest h (handle 1 ∷ handle 2 ∷ [])
unfolding name_dir host_bare join split_slash resolve resolve_all listed validate_ref_segment
    check_bytes validate_part
find_by_ref-IsNewest_example =
    find_by_ref-IsNewest crates directory untagged two_images (handle 1) (handle 2 ∷ []) refl refl
      refl refl both_open
