-- ===== src/Reference.antt =====
-- goldboot-image/src/lib.rs: image references, `[scheme://][<host>/]<name>[:<tag>]`, and the checks
-- on their segments. A string is the list of its bytes.
mod Text
pub mod Segment
pub mod Display
pub mod RoundTrip
mod Tests
unfoldable pub use Text.{strip_prefix, find, rfind, contains}
use goldboot.Base.{
  ℕ, suc, ◌+◌, Bool, true, false, ◌&&◌, ◌||◌, not, List, [], ◌∷◌, ◌++◌, Option, none, some, length,
  take, drop, ltb, leb, ◌==◌, bytes_eq, if◌then◌else◌, Result, ok, err, bind, empty_segment,
  segment_too_long, reserved_segment, invalid_byte, missing_name, scheme_without_host,
}
use mathlib.Core.Option

abbrev pub max_ref_segment_len : ℕ
max_ref_segment_len = 64

-- `u8::is_ascii_alphanumeric`.
abbrev pub is_ascii_alphanumeric : ℕ → Bool
is_ascii_alphanumeric b =
    (leb b'0' b && leb b b'9') || (leb b'A' b && leb b b'Z') || (leb b'a' b && leb b b'z')

-- The bytes that a name or a tag may hold, and those that a host may hold.
abbrev pub is_ref_byte : ℕ → Bool
is_ref_byte b = is_ascii_alphanumeric b || b == b'.' || b == b'-' || b == b'_'

abbrev pub is_host_byte : ℕ → Bool
is_host_byte b = is_ascii_alphanumeric b || b == b'.' || b == b'-' || b == b'_' || b == b':'

-- The loop over `s.bytes().enumerate()`: it bails at the first byte that is not allowed.
unfoldable pub check_bytes : (ℕ → Bool) → ℕ → List ℕ → Result (Unit {0})
check_bytes allowed i [] = ok tt
check_bytes allowed i (b ∷ bs) =
    let rest = check_bytes allowed (i + 1) bs in if allowed b then rest else err (invalid_byte b i)

abbrev pub dot : List ℕ
dot = b'.' ∷ []

abbrev pub dot_dot : List ℕ
dot_dot = b'.' ∷ b'.' ∷ []

unfoldable pub validate_ref_segment : List ℕ → Result (Unit {0})
validate_ref_segment s =
    if length s == 0
    then err empty_segment
    else if ltb max_ref_segment_len (length s)
    then err segment_too_long
    else if bytes_eq s dot || bytes_eq s dot_dot
    then err reserved_segment
    else check_bytes is_ref_byte 0 s

unfoldable pub validate_host_segment : List ℕ → Result (Unit {0})
validate_host_segment s =
    if length s == 0
    then err empty_segment
    else if ltb 253 (length s)
    then err segment_too_long
    else if bytes_eq s dot || bytes_eq s dot_dot
    then err reserved_segment
    else check_bytes is_host_byte 0 s

-- "http://" and "https://".
abbrev pub http : List ℕ
http = b'h' ∷ b't' ∷ b't' ∷ b'p' ∷ b':' ∷ b'/' ∷ b'/' ∷ []

abbrev pub https : List ℕ
https = b'h' ∷ b't' ∷ b't' ∷ b'p' ∷ b's' ∷ b':' ∷ b'/' ∷ b'/' ∷ []

unfoldable pub host_without_scheme : List ℕ → List ℕ
host_without_scheme host = elim (strip_prefix https host) [
  | some rest ↦ rest
  | none ↦ elim (strip_prefix http host) [ some rest ↦ rest | none ↦ host ]
]

pub record ImageRef : Type 0 where
  pub host : Option (List ℕ)
  pub name : List ℕ
  pub tag : Option (List ℕ)

-- `scheme_prefix` and `rest`.
unfoldable pub split_scheme : List ℕ → List ℕ × List ℕ
split_scheme reference = elim (strip_prefix http reference) [
  | some rest ↦ (http, rest)
  | none ↦ elim (strip_prefix https reference) [
    | some rest ↦ (https, rest)
    | none ↦ ([], reference)
  ]
]

-- `ref_no_tag` and `tag`.
unfoldable pub split_tag : List ℕ → List ℕ × Option (List ℕ)
split_tag rest = elim (rfind b':' rest) [
  | none ↦ (rest, none)
  | some pos ↦
      if contains b'/' (drop (suc pos) rest)
      then (rest, none)
      else (take pos rest, some (drop (suc pos) rest))
]

-- `host` and `name`.
unfoldable pub split_host : List ℕ → List ℕ → Result (Option (List ℕ) × List ℕ)
split_host scheme_prefix ref_no_tag = elim (find b'/' ref_no_tag) [
  | some slash ↦ ok (some (scheme_prefix ++ take slash ref_no_tag), drop (suc slash) ref_no_tag)
  | none ↦ if length scheme_prefix == 0 then ok (none, ref_no_tag) else err scheme_without_host
]

-- The end of `parse`: the name must not be empty.
unfoldable pub build_ref : Option (List ℕ) → List ℕ → Option (List ℕ) → Result ImageRef
build_ref host name tag =
    if length name == 0
    then err missing_name
    else ok (record { host = host; name = name; tag = tag })

unfoldable pub parse : List ℕ → Result ImageRef
parse reference =
    let (scheme_prefix, rest) = split_scheme reference in
    let (ref_no_tag, tag) = split_tag rest in
    bind (split_host scheme_prefix ref_no_tag) λ (host, name). build_ref host name tag

unfoldable pub host_bare : ImageRef → Option (List ℕ)
host_bare r = Option.map host_without_scheme r.host

-- A check of a part that may be absent.
unfoldable pub validate_part : (List ℕ → Result (Unit {0})) → Option (List ℕ) → Result (Unit {0})
validate_part check none = ok tt
validate_part check (some s) = check s

unfoldable pub validate : ImageRef → Result (Unit {0})
validate r = bind (validate_ref_segment r.name) λ _.
    bind (validate_part validate_ref_segment r.tag)
      λ _. validate_part validate_host_segment (host_bare r)

-- `Display::fmt`.
abbrev pub host_text : Option (List ℕ) → List ℕ
host_text none = []
host_text (some h) = h ++ b'/' ∷ []

abbrev pub tag_text : Option (List ℕ) → List ℕ
tag_text none = []
tag_text (some t) = b':' ∷ t

unfoldable pub to_string : ImageRef → List ℕ
to_string r = host_text r.host ++ (r.name ++ tag_text r.tag)
