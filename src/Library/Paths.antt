-- ===== src/Library/Paths.antt =====
-- Every image of the library has a path of its own.
use goldboot.Base.{
  ℕ, List, [], length, cancel_front, cancel_back, get_or, Option, none, some, ok, ◌≡◌, refl, sym,
  ap, ◌∙◌, arith,
}
use goldboot.Reference.{ImageRef, host_bare}
use goldboot.Library.{dot_gb, library_path}
use goldboot.Library.Addressed.{parts, library_path-IsAddressed}

same_parts :
    (host host' : Option (List ℕ)) (name name' tag tag' : List ℕ)
    → parts host name tag ≡ parts host' name' tag'
    → (host ≡ host') × (name ≡ name') × (tag ≡ tag')
same_parts none none name name' tag tag' e = (
  refl,
  ap (λ (p : List (List ℕ)). get_or p 0 []) e,
  cancel_back tag tag' dot_gb (ap (λ (p : List (List ℕ)). get_or p 1 []) e),
)
same_parts (some host) (some host') name name' tag tag' e = (
  ap (λ (p : List (List ℕ)). some (get_or p 0 [])) e,
  ap (λ (p : List (List ℕ)). get_or p 1 []) e,
  cancel_back tag tag' dot_gb (ap (λ (p : List (List ℕ)). get_or p 2 []) e),
)
same_parts none (some host') name name' tag tag' e = absurd (omega (arith, ap length e))
same_parts (some host) none name name' tag tag' e = absurd (omega (arith, ap length e))

-- Two references that have the same path in the library name the same image: their hosts, without a
-- scheme, their names and their tags are equal, so that an image of a host and one that was built locally
-- never share a file.
pub library_path-injective :
    (directory path : List (List ℕ)) (r r' : ImageRef)
    → library_path directory r ≡ ok path
    → library_path directory r' ≡ ok path
    → (host_bare r ≡ host_bare r') × (r.name ≡ r'.name) × (r.tag ≡ r'.tag)
library_path-injective directory path r r' h h' =
    let a = library_path-IsAddressed directory path r h in
    let a' = library_path-IsAddressed directory path r' h' in
    let same = same_parts (host_bare r) (host_bare r') r.name r'.name a.tag a'.tag (
      cancel_front directory (parts (host_bare r) r.name a.tag)
        (parts (host_bare r') r'.name a'.tag) (sym a.at ∙ a'.at)) in
    (same.0, same.1, a.tagged ∙ ap some same.2 ∙ sym a'.tagged)
