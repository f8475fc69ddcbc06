-- ===== src/Registry/Storage/Tests.antt =====
-- One image in pieces, a body that breaks off, and another image.
use goldboot.Base.{
  ℕ, List, [], ◌∷◌, Option, none, some, map, ok, err, short_read, ◌≡◌, refl, ap, arith, get_or,
}
use goldboot.Files.{
  Files, lookup, without, listed, read_file, create_file, create_dirs, create_dir_all, rename,
  with_extension, with_path_extension, join, parent, split_slash, resolve, resolve_all,
}
use goldboot.Reference.{validate_ref_segment, check_bytes, rfind}
use goldboot.Registry.Storage.{image_path, tmp_path, open_stored, copy_body, put_image}
use goldboot.Registry.Storage.Puts.{open_stored-put_image, put_image-err, put_image-other}

abbrev data_dir : List (List ℕ)
data_dir = (b'd' ∷ []) ∷ []

abbrev name : List ℕ
name = b'i' ∷ b'm' ∷ b'g' ∷ []

abbrev tag : List ℕ
tag = b'v' ∷ b'1' ∷ b'.' ∷ b'2' ∷ []

abbrev files : Files
files = record { files = []; dirs = data_dir ∷ [] }

abbrev pieces : List (List ℕ)
pieces = (1 ∷ 2 ∷ []) ∷ (3 ∷ []) ∷ []

abbrev broken : List (Option (List ℕ))
broken = some (1 ∷ []) ∷ none ∷ []

accepts : (put_image data_dir name tag (map some pieces) files).1 ≡ ok 3
unfolding put_image image_path tmp_path copy_body validate_ref_segment check_bytes rfind
    with_extension with_path_extension join parent split_slash resolve resolve_all lookup without
    listed read_file create_file create_dirs create_dir_all rename
accepts = refl

breaks : (put_image data_dir name tag broken files).1 ≡ err short_read
unfolding put_image image_path tmp_path copy_body validate_ref_segment check_bytes rfind
    with_extension with_path_extension join parent split_slash resolve resolve_all lookup without
    listed read_file create_file create_dirs create_dir_all rename
breaks = refl

open_stored-put_image_example :
    open_stored data_dir name tag (put_image data_dir name tag (map some pieces) files).0
    ≡ ok (1 ∷ 2 ∷ 3 ∷ [], 3)
open_stored-put_image_example =
    open_stored-put_image data_dir name tag files pieces 3 (omega arith, (omega arith, tt)) accepts

put_image-err_example :
    open_stored data_dir name tag (put_image data_dir name tag broken files).0
    ≡ open_stored data_dir name tag files
put_image-err_example = put_image-err data_dir name tag files broken short_read name tag breaks

other_tag : ¬ ((name ≡ name) × (name ≡ tag))
other_tag e = absurd (omega (arith, ap (λ (t : List ℕ). get_or t 0 0) e.1))

put_image-other_example :
    open_stored data_dir name name (put_image data_dir name tag (map some pieces) files).0
    ≡ open_stored data_dir name name files
put_image-other_example =
    put_image-other data_dir name tag files (map some pieces) name name other_tag
