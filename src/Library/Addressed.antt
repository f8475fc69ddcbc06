-- ===== src/Library/Addressed.antt =====
-- goldboot/src/library.rs, `ImageLibrary::image_path`: the references that have a path, and the path.
use goldboot.Base.{
  ℕ, List, [], ◌∷◌, ◌++◌, Option, none, some, ok, bind-eq-ok, append_assoc, ◌≡◌, sym, ap, ◌∙◌,
}
use goldboot.Files.Plain.{
  join-IsPlain, validate_ref_segment-IsPlain, validate_host_segment-IsPlain, file_name-IsPlain,
}
use goldboot.Files.{join}
use goldboot.Reference.{
  ImageRef, host_bare, validate_part, validate_ref_segment, validate_host_segment,
}
use goldboot.Library.{dot_gb, name_dir, concrete_tag, library_path}

-- The components below the library's directory.
abbrev pub parts : Option (List ℕ) → List ℕ → List ℕ → List (List ℕ)
parts none name tag = name ∷ (tag ++ dot_gb) ∷ []
parts (some host) name tag = host ∷ name ∷ (tag ++ dot_gb) ∷ []

-- The joins of accepted segments append one component each.
local_parts :
    (directory : List (List ℕ)) (name tag : List ℕ)
    → validate_ref_segment name ≡ ok tt
    → validate_ref_segment tag ≡ ok tt
    → join (join directory name) (tag ++ dot_gb) ≡ directory ++ (name ∷ (tag ++ dot_gb) ∷ [])
local_parts directory name tag n t =
    ap (λ (p : List (List ℕ)). join p (tag ++ dot_gb))
      (join-IsPlain directory name (validate_ref_segment-IsPlain name n))
    ∙ join-IsPlain (directory ++ name ∷ []) (tag ++ dot_gb)
        (file_name-IsPlain tag (validate_ref_segment-IsPlain tag t))
    ∙ append_assoc directory (name ∷ []) ((tag ++ dot_gb) ∷ [])

joined_parts :
    (directory : List (List ℕ)) (host : Option (List ℕ)) (name tag : List ℕ)
    → validate_part validate_host_segment host ≡ ok tt
    → validate_ref_segment name ≡ ok tt
    → validate_ref_segment tag ≡ ok tt
    → join (name_dir directory host name) (tag ++ dot_gb) ≡ directory ++ parts host name tag
unfolding name_dir
joined_parts directory none name tag h n t = local_parts directory name tag n t
joined_parts directory (some host) name tag h n t =
    ap (λ (p : List (List ℕ)). join (join p name) (tag ++ dot_gb))
      (join-IsPlain directory host (validate_host_segment-IsPlain host (unfold validate_part in h)))
    ∙ local_parts (directory ++ host ∷ []) name tag n t
    ∙ append_assoc directory (host ∷ []) (name ∷ (tag ++ dot_gb) ∷ [])

-- What a reference that has a path is, and the path.
pub record IsAddressed (directory : List (List ℕ)) (r : ImageRef) (path : List (List ℕ))
    : Type 0 where
  pub tag : List ℕ
  pub tagged : r.tag ≡ some tag
  pub named : validate_ref_segment r.name ≡ ok tt
  pub hosted : validate_part validate_host_segment (host_bare r) ≡ ok tt
  pub at : path ≡ directory ++ parts (host_bare r) r.name tag

concrete_tag-ok : (o : Option (List ℕ)) (tag : List ℕ) → concrete_tag o ≡ ok tag → o ≡ some tag
concrete_tag-ok none tag h = cc
concrete_tag-ok (some t) tag h = cc

pub library_path-IsAddressed :
    (directory path : List (List ℕ)) (r : ImageRef)
    → library_path directory r ≡ ok path
    → IsAddressed directory r path
unfolding library_path
library_path-IsAddressed directory path r h =
    let name = bind-eq-ok (validate_ref_segment r.name) _ h in
    let tag = bind-eq-ok (concrete_tag r.tag) _ name.2 in
    let tag_ok = bind-eq-ok (validate_ref_segment tag.0) _ tag.2 in
    let host = bind-eq-ok (validate_part validate_host_segment (host_bare r)) _ tag_ok.2 in
    record {
      tag = tag.0;
      tagged = concrete_tag-ok r.tag tag.0 tag.1;
      named = name.1;
      hosted = host.1;
      at =
          let last : join (name_dir directory (host_bare r) r.name) (tag.0 ++ dot_gb) ≡ path =
            let given = host.2 in cc in
          sym last ∙ joined_parts directory (host_bare r) r.name tag.0 host.1 name.1 tag_ok.1;
    }
