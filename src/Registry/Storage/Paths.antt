-- ===== src/Registry/Storage/Paths.antt =====
-- The paths of hosted images and of the temporary files beside them.
use goldboot.Base.{
  cancel_front, cancel_back, append_assoc, ◌⊎◌, inl, inr, ℕ, List, [], ◌∷◌, ◌++◌, Option, none,
  some, ok, bind-eq-ok, ◌≡◌, ◌≢◌, refl, sym, ap, ◌∙◌, arith, take, get_or, suc, zero,
}
use goldboot.Files.{join, with_extension, with_path_extension, dotted}
use goldboot.Files.Plain.{join-IsPlain, validate_ref_segment-IsPlain, file_name-IsPlain}
use goldboot.Reference.{validate_ref_segment, rfind}
use goldboot.Registry.Storage.{gb, gb_partial, joined_path, image_path, tmp_path}

-- The two components that a path has below the data directory.
components :
    (data_dir : List (List ℕ)) (a b a' b' : List ℕ)
    → data_dir ++ (a ∷ b ∷ []) ≡ data_dir ++ (a' ∷ b' ∷ [])
    → (a ≡ a') × (b ≡ b')
components data_dir a b a' b' e =
    let same = cancel_front data_dir (a ∷ b ∷ []) (a' ∷ b' ∷ []) e in
    (ap (λ (p : List (List ℕ)). get_or p 0 []) same, ap (λ (p : List (List ℕ)). get_or p 1 []) same)

image_path-ok :
    (data_dir path : List (List ℕ)) (name tag : List ℕ)
    → image_path data_dir name tag ≡ ok path
    → (validate_ref_segment name ≡ ok tt)
      × (validate_ref_segment tag ≡ ok tt)
      × (path ≡ data_dir ++ (name ∷ (tag ++ gb) ∷ []))
unfolding image_path
image_path-ok data_dir path name tag h =
    let one = bind-eq-ok (validate_ref_segment name) _ h in
    let two = bind-eq-ok (validate_ref_segment tag) _ one.2 in
    let at : joined_path data_dir name tag ≡ path = let last = two.2 in cc in
    let file = file_name-IsPlain tag (validate_ref_segment-IsPlain tag two.1) in
    (
      one.1,
      two.1,
      sym at
          ∙ ap (λ (p : List (List ℕ)). join p (tag ++ gb))
              (join-IsPlain data_dir name (validate_ref_segment-IsPlain name one.1))
          ∙ join-IsPlain (data_dir ++ name ∷ []) (tag ++ gb) file
          ∙ append_assoc data_dir (name ∷ []) ((tag ++ gb) ∷ []),
    )

-- Every image has a path of its own, below the data directory: two components, the first of them the
-- image's name and the second its tag with ".gb", both accepted as segments.
pub image_path-injective :
    (data_dir path : List (List ℕ)) (name tag name' tag' : List ℕ)
    → image_path data_dir name tag ≡ ok path
    → image_path data_dir name' tag' ≡ ok path
    → (name ≡ name') × (tag ≡ tag')
image_path-injective data_dir path name tag name' tag' h h' =
    let one = image_path-ok data_dir path name tag h in
    let two = image_path-ok data_dir path name' tag' h' in
    let parts = components data_dir name (tag ++ gb) name' (tag' ++ gb) (sym one.2 ∙ two.2) in
    (parts.0, cancel_back tag tag' gb parts.1)

abbrev last_byte : List ℕ → ℕ
last_byte [] = 0
last_byte (b ∷ []) = b
last_byte (b ∷ c ∷ bs) = last_byte (c ∷ bs)

last_byte-append : (xs ys : List ℕ) (y : ℕ) → last_byte (xs ++ (y ∷ ys)) ≡ last_byte (y ∷ ys)
last_byte-append [] ys y = refl
last_byte-append (x ∷ []) ys y = refl
last_byte-append (x ∷ x' ∷ xs) ys y = last_byte-append (x' ∷ xs) ys y

-- The temporary file is no image.
dotted_last : (name : List ℕ) (i : Option ℕ) → last_byte (dotted name i gb_partial) ≡ b'l'
dotted_last name none = last_byte-append name gb_partial b'.'
dotted_last name (some zero) = last_byte-append name gb_partial b'.'
dotted_last name (some (suc i)) = last_byte-append (take (suc i) name) gb_partial b'.'

abbrev last_of : List (List ℕ) → List ℕ
last_of [] = []
last_of (p ∷ []) = p
last_of (p ∷ q ∷ ps) = last_of (q ∷ ps)

last_of-append : (ps : List (List ℕ)) (a b : List ℕ) → last_of (ps ++ (a ∷ b ∷ [])) ≡ b
last_of-append [] a b = refl
last_of-append (p ∷ []) a b = refl
last_of-append (p ∷ q ∷ ps) a b = last_of-append (q ∷ ps) a b

-- A path with the extension of a temporary file ends in 'l', unless it is the root.
extension_last :
    (p : List (List ℕ))
    → (last_byte (last_of (with_path_extension p gb_partial)) ≡ 0)
      ⊎ (last_byte (last_of (with_path_extension p gb_partial)) ≡ b'l')
unfolding with_path_extension with_extension
extension_last [] = inl refl
extension_last (p ∷ []) = inr (dotted_last p (rfind b'.' p))
extension_last (p ∷ q ∷ []) = inr (dotted_last q (rfind b'.' q))
extension_last (p ∷ q ∷ r ∷ ps) = extension_last (q ∷ r ∷ ps)

pub tmp_path-no_image :
    (data_dir path : List (List ℕ)) (name tag name' tag' : List ℕ)
    → image_path data_dir name' tag' ≡ ok path
    → path ≢ tmp_path data_dir name tag
unfolding tmp_path
tmp_path-no_image data_dir path name tag name' tag' h e =
    let one = image_path-ok data_dir path name' tag' h in
    let file : last_byte (last_of (tmp_path data_dir name tag)) ≡ b'b' =
      ap (λ (p : List (List ℕ)). last_byte (last_of p)) (sym e ∙ one.2)
      ∙ ap last_byte (last_of-append data_dir name' (tag' ++ gb))
      ∙ last_byte-append tag' (b'g' ∷ b'b' ∷ []) b'.' in
    elim (extension_last (joined_path data_dir name tag)) [
      | inl zero_byte ↦ absurd (omega (arith, file, zero_byte))
      | inr l ↦ absurd (omega (arith, file, l))
    ]
