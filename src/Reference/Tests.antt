-- ===== src/Reference/Tests.antt =====
-- Concrete references and segments.
use goldboot.Base.{ℕ, ◌≡◌, ◌↔◌, refl, List, [], ◌∷◌, some, arith, ok, err, invalid_byte}
use goldboot.Reference.{
  ImageRef, is_ref_byte, is_host_byte, validate_ref_segment, validate_host_segment, validate, parse,
  to_string, host_without_scheme, strip_prefix, check_bytes, host_bare, validate_part, contains,
  find, rfind, split_scheme, split_tag, split_host, build_ref,
}
use goldboot.Reference.Segment.{
  IsSegment, validate_ref_segment_iff, validate_host_segment_iff, validate_ref_segment_reports,
}
use goldboot.Reference.Display.{to_string-parse}
use goldboot.Reference.RoundTrip.{parse-to_string}

-- "http://r.io:80/vm:v1".
abbrev text : List ℕ
text =
    b'h' ∷ b't' ∷ b't' ∷ b'p' ∷ b':' ∷ b'/' ∷ b'/' ∷ b'r' ∷ b'.' ∷ b'i' ∷ b'o' ∷ b':' ∷ b'8' ∷ b'0'
    ∷ b'/' ∷ b'v' ∷ b'm' ∷ b':' ∷ b'v' ∷ b'1' ∷ []

abbrev reference : ImageRef
reference = record {
  host = some (
      b'h' ∷ b't' ∷ b't' ∷ b'p' ∷ b':' ∷ b'/' ∷ b'/' ∷ b'r' ∷ b'.' ∷ b'i' ∷ b'o' ∷ b':' ∷ b'8'
      ∷ b'0' ∷ []);
  name = b'v' ∷ b'm' ∷ [];
  tag = some (b'v' ∷ b'1' ∷ []);
}

reference-valid : validate reference ≡ ok tt
unfolding validate validate_ref_segment validate_host_segment check_bytes host_bare
    host_without_scheme strip_prefix validate_part
reference-valid = refl

text-parses : parse text ≡ ok reference
unfolding parse split_scheme split_tag split_host build_ref strip_prefix find rfind contains
text-parses = refl

parse-to_string_example : parse (to_string reference) ≡ ok reference
parse-to_string_example = parse-to_string reference reference-valid

to_string-parse_example : to_string reference ≡ text
to_string-parse_example = to_string-parse text reference text-parses

validate_ref_segment_iff_example :
    (validate_ref_segment (b'v' ∷ b'1' ∷ []) ≡ ok tt) ↔ IsSegment 64 is_ref_byte (b'v' ∷ b'1' ∷ [])
validate_ref_segment_iff_example = validate_ref_segment_iff (b'v' ∷ b'1' ∷ [])

validate_host_segment_iff_example :
    (validate_host_segment (b'r' ∷ b':' ∷ b'8' ∷ []) ≡ ok tt)
    ↔ IsSegment 253 is_host_byte (b'r' ∷ b':' ∷ b'8' ∷ [])
validate_host_segment_iff_example = validate_host_segment_iff (b'r' ∷ b':' ∷ b'8' ∷ [])

-- "v1/x" has a slash at position 2.
validate_ref_segment_reports_example :
    validate_ref_segment (b'v' ∷ b'1' ∷ b'/' ∷ b'x' ∷ []) ≡ err (invalid_byte b'/' 2)
validate_ref_segment_reports_example =
    validate_ref_segment_reports (b'v' ∷ b'1' ∷ []) b'/' (b'x' ∷ []) (refl, (refl, tt)) refl
      (omega arith)
