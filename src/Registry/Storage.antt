-- ===== src/Registry/Storage.antt =====
-- goldboot-registry/src/storage.rs: hosted images at `<data_dir>/<name>/<tag>.gb`.
pub mod Paths
pub mod Puts
mod Tests
use goldboot.Base.{
  ℕ, List, [], ◌∷◌, ◌++◌, Option, none, some, length, Result, ok, err, bind, short_read,
}
use goldboot.Files.{
  join, parent, with_path_extension, Files, put_file, read_file, create_file, create_dir_all,
  rename, with_extension,
}
use goldboot.Reference.{validate_ref_segment}

-- ".gb" and "gb.partial".
abbrev pub gb : List ℕ
gb = b'.' ∷ b'g' ∷ b'b' ∷ []

abbrev pub gb_partial : List ℕ
gb_partial = b'g' ∷ b'b' ∷ b'.' ∷ b'p' ∷ b'a' ∷ b'r' ∷ b't' ∷ b'i' ∷ b'a' ∷ b'l' ∷ []

-- Two calls of `join`.
abbrev pub joined_path : List (List ℕ) → List ℕ → List ℕ → List (List ℕ)
joined_path data_dir name tag = join (join data_dir name) (tag ++ gb)

unfoldable pub image_path : List (List ℕ) → List ℕ → List ℕ → Result (List (List ℕ))
image_path data_dir name tag =
    bind (validate_ref_segment name)
      λ name_ok. bind (validate_ref_segment tag) λ tag_ok. ok (joined_path data_dir name tag)

-- The temporary file beside it.
unfoldable pub tmp_path : List (List ℕ) → List ℕ → List ℕ → List (List ℕ)
tmp_path data_dir name tag = with_path_extension (joined_path data_dir name tag) gb_partial

-- The file and its length.
unfoldable pub open_stored : List (List ℕ) → List ℕ → List ℕ → Files → Result (List ℕ × ℕ)
open_stored data_dir name tag fs =
    bind (image_path data_dir name tag)
      λ path. bind (read_file path fs) λ bytes. ok (bytes, length bytes)

-- The loop over the pieces that `body.read` returns, an error among them or not: what is written, and
-- the total or the error. An empty piece ends the body.
unfoldable pub copy_body : List (Option (List ℕ)) → List ℕ → List ℕ × Result ℕ
copy_body [] written = (written, ok (length written))
copy_body (none ∷ pieces) written = (written, err short_read)
copy_body (some [] ∷ pieces) written = (written, ok (length written))
copy_body (some (b ∷ piece) ∷ pieces) written = copy_body pieces (written ++ (b ∷ piece))

-- `?` in a function that has changed the files: an error leaves them as they are by then.
abbrev pub stop_at {ℓ} : {A : Type ℓ} → Files → Result A → (A → Files × Result ℕ) → Files × Result ℕ
stop_at fs (ok a) go = go a
stop_at fs (err e) go = (fs, err e)

unfoldable pub put_image :
    List (List ℕ) → List ℕ → List ℕ → List (Option (List ℕ)) → Files → Files × Result ℕ
put_image data_dir name tag body fs =
    let tmp = tmp_path data_dir name tag in
    let copied = copy_body body [] in
    stop_at fs (image_path data_dir name tag) λ final.
      stop_at fs (create_dir_all (parent (joined_path data_dir name tag)) fs) λ fs1.
        stop_at fs1 (create_file tmp fs1) λ fs2.
          stop_at (put_file tmp copied.0 fs2) copied.1 λ total.
            stop_at (put_file tmp copied.0 fs2) (rename tmp final (put_file tmp copied.0 fs2))
              λ fs4. (fs4, ok total)
