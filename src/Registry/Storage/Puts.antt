-- ===== src/Registry/Storage/Puts.antt =====
-- What `put` changes: the image that it names, all of it or nothing.
use goldboot.Base.{
  ℕ, List, [], ◌∷◌, ◌++◌, Option, some, length, append-nil, append_assoc, ◌<◌, Result, ok, err,
  Error, Result-cases, ◌≡◌, ◌≢◌, refl, sym, ap, ◌∙◌, ◌⊎◌, inl, inr, arith, map, All,
}
use goldboot.Files.{parent, Files, put_file, read_file, create_file, create_dir_all, rename}
use goldboot.Files.Laws.{
  read_file-put_file, read_other-put_file, read_other-create_file, read_file-create_dir_all,
  read_file-rename, read_other-rename,
}
use goldboot.Registry.Storage.Paths.{image_path-injective, tmp_path-no_image}
use goldboot.Registry.Storage.{joined_path, image_path, tmp_path, open_stored, copy_body, put_image}

-- The bytes of a body.
abbrev pub joined : List (List ℕ) → List ℕ
joined [] = []
joined (p ∷ ps) = p ++ joined ps

-- A put that failed, and one that went through.
record HasFailed (tmp : List (List ℕ)) (fs : Files) (after : Files × Result ℕ) : Type 0 where
  pub cause : Error
  pub failed : after.1 ≡ err cause
  pub kept : (q : List (List ℕ)) → q ≢ tmp → read_file q after.0 ≡ read_file q fs

record HasStored (tmp : List (List ℕ)) (path : Result (List (List ℕ))) (copied : List ℕ × Result ℕ)
    (fs : Files) (after : Files × Result ℕ) : Type 0 where
  pub final : List (List ℕ)
  pub at : path ≡ ok final
  pub count : ℕ
  pub total : after.1 ≡ ok count
  pub copied_all : copied.1 ≡ ok count
  pub stored : read_file final after.0 ≡ ok copied.0
  pub kept : (q : List (List ℕ)) → q ≢ tmp → q ≢ final → read_file q after.0 ≡ read_file q fs

module _ (data_dir : List (List ℕ)) (name tag : List ℕ) (body : List (Option (List ℕ)))
    (fs : Files) where
  tmp : List (List ℕ)
  tmp = tmp_path data_dir name tag

  copied : List ℕ × Result ℕ
  copied = copy_body body []

  path : Result (List (List ℕ))
  path = image_path data_dir name tag

  -- Up to the temporary file nothing else has changed.
  kept_so_far :
      (fs1 fs2 : Files)
      → create_dir_all (parent (joined_path data_dir name tag)) fs ≡ ok fs1
      → create_file tmp fs1 ≡ ok fs2
      → (q : List (List ℕ)) → q ≢ tmp
      → read_file q (put_file tmp copied.0 fs2) ≡ read_file q fs
  kept_so_far fs1 fs2 made created q h =
      read_other-put_file tmp copied.0 fs2 q h
      ∙ read_other-create_file tmp q fs1 fs2 h created
      ∙ read_file-create_dir_all (parent (joined_path data_dir name tag)) q fs fs1 made

  put_outcome :
      HasFailed tmp fs (put_image data_dir name tag body fs)
      ⊎ HasStored tmp path copied fs (put_image data_dir name tag body fs)
  unfolding put_image tmp copied path
  put_outcome = elim (Result-cases path) [
    | inr (e, q) ↦ rw q (inl (record { cause = e; failed = refl; kept = λ q' h. refl }))
    | inl (final, q) ↦
        elim (Result-cases (create_dir_all (parent (joined_path data_dir name tag)) fs)) [
          | inr (e, q1) ↦
              rw (q, q1) (inl (record { cause = e; failed = refl; kept = λ q' h. refl }))
          | inl (fs1, q1) ↦ elim (Result-cases (create_file tmp fs1)) [
            | inr (e, q2) ↦
                rw (q, q1, q2)
                  (inl (record {
                    cause = e;
                    failed = refl;
                    kept = λ q' h.
                        read_file-create_dir_all (parent (joined_path data_dir name tag)) q' fs fs1
                          q1;
                  }))
            | inl (fs2, q2) ↦ elim (Result-cases (copied.1)) [
              | inr (e, q3) ↦
                  rw (q, q1, q2, q3)
                    (inl (record { cause = e; failed = refl; kept = kept_so_far fs1 fs2 q1 q2 }))
              | inl (n, q3) ↦ elim (Result-cases (rename tmp final (put_file tmp copied.0 fs2))) [
                | inr (e, q4) ↦
                    rw (q, q1, q2, q3, q4)
                      (inl (record { cause = e; failed = refl; kept = kept_so_far fs1 fs2 q1 q2 }))
                | inl (fs4, q4) ↦
                    rw (q, q1, q2, q3, q4)
                      (inr (record {
                        final = final;
                        at = refl;
                        count = n;
                        total = refl;
                        copied_all = refl;
                        stored =
                            read_file-rename tmp final (put_file tmp copied.0 fs2) fs4 q4
                            ∙ read_file-put_file tmp copied.0 fs2;
                        kept = λ q' h h'.
                            read_other-rename tmp final (put_file tmp copied.0 fs2) fs4 q4 q' h h'
                            ∙ kept_so_far fs1 fs2 q1 q2 q' h;
                      }))
              ]
            ]
          ]
        ]
  ]

module _ (data_dir : List (List ℕ)) (fs after : Files) where
  -- An image reads the same when its file does.
  same_image :
      (name tag : List ℕ)
      → ((path : List (List ℕ))
          → image_path data_dir name tag ≡ ok path
          → read_file path after ≡ read_file path fs)
      → open_stored data_dir name tag after ≡ open_stored data_dir name tag fs
  unfolding open_stored
  same_image name tag same = elim (Result-cases (image_path data_dir name tag)) [
    | inr (e, q) ↦ rw q refl
    | inl (path, q) ↦ rw (q, same path q) refl
  ]

copy_body-pieces :
    (pieces : List (List ℕ)) (written : List ℕ)
    → All (λ p. 0 < length p) pieces
    → copy_body (map some pieces) written
      ≡ (written ++ joined pieces, ok (length (written ++ joined pieces)))
unfolding copy_body
copy_body-pieces [] written h = rw (append-nil written) refl
copy_body-pieces ([] ∷ pieces) written h = absurd (omega (arith, h.0))
copy_body-pieces ((b ∷ piece) ∷ pieces) written h =
    copy_body-pieces pieces (written ++ (b ∷ piece)) h.1
    ∙ ap (λ (w : List ℕ). (w, ok (length w))) (append_assoc written (b ∷ piece) (joined pieces))

module _ (data_dir : List (List ℕ)) (name tag : List ℕ) (fs : Files) where
  -- An image that was put is opened with all the bytes of its body, in order, however the body came in
  -- pieces, and both calls tell its length.
  pub open_stored-put_image :
      (pieces : List (List ℕ)) (n : ℕ)
      → All (λ p. 0 < length p) pieces
      → (put_image data_dir name tag (map some pieces) fs).1 ≡ ok n
      → open_stored data_dir name tag (put_image data_dir name tag (map some pieces) fs).0
        ≡ ok (joined pieces, n)
  unfolding open_stored copied path
  open_stored-put_image pieces n whole h =
      let body = map some pieces in
      let copies = copy_body-pieces pieces [] whole in
      elim (put_outcome data_dir name tag body fs) [
        | inl failed ↦ let no = failed.failed in cc
        | inr stored ↦
            let at : image_path data_dir name tag ≡ ok stored.final = stored.at in
            let read : read_file stored.final (put_image data_dir name tag body fs).0
                ≡ ok (joined pieces) =
              stored.stored ∙ ap (λ (c : List ℕ × Result ℕ). ok c.0) copies in
            let counted : ok (length (joined pieces)) ≡ ok n =
              sym (ap (λ (c : List ℕ × Result ℕ). c.1) copies)
              ∙ stored.copied_all
              ∙ sym stored.total
              ∙ h in
            let long : length (joined pieces) ≡ n = cc in rw (at, read, long) refl
      ]

  -- A put that fails, at a bad name, on the way or in the middle of its body, leaves every image as it
  -- was, the named one too.
  pub put_image-err :
      (body : List (Option (List ℕ))) (e : Error) (name' tag' : List ℕ)
      → (put_image data_dir name tag body fs).1 ≡ err e
      → open_stored data_dir name' tag' (put_image data_dir name tag body fs).0
        ≡ open_stored data_dir name' tag' fs
  unfolding tmp
  put_image-err body e name' tag' h = elim (put_outcome data_dir name tag body fs) [
    | inl failed ↦
        same_image data_dir fs _ name' tag'
          λ path q. failed.kept path (tmp_path-no_image data_dir path name tag name' tag' q)
    | inr stored ↦ let no = sym h ∙ stored.total in cc
  ]

  -- A put, whether it fails or not, leaves every other image as it was.
  pub put_image-other :
      (body : List (Option (List ℕ))) (name' tag' : List ℕ)
      → ¬ ((name' ≡ name) × (tag' ≡ tag))
      → open_stored data_dir name' tag' (put_image data_dir name tag body fs).0
        ≡ open_stored data_dir name' tag' fs
  unfolding tmp path
  put_image-other body name' tag' other = elim (put_outcome data_dir name tag body fs) [
    | inl failed ↦
        same_image data_dir fs _ name' tag'
          λ path q. failed.kept path (tmp_path-no_image data_dir path name tag name' tag' q)
    | inr stored ↦ same_image data_dir fs _ name' tag' λ path q.
        stored.kept path (tmp_path-no_image data_dir path name tag name' tag' q) λ e.
          other
            (image_path-injective data_dir path name' tag' name tag q (stored.at ∙ ap ok (sym e)))
  ]
