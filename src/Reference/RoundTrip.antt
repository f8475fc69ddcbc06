-- ===== src/Reference/RoundTrip.antt =====
-- A reference that passes `validate` is parsed back from its display.
use goldboot.Base.{
  ℕ, suc, ◌<◌, ◌≡◌, refl, ◌≢◌, true, false, List, [], ◌∷◌, ◌++◌, append-nil, append_assoc, Option,
  none, some, length, drop, take-append, All, arith, ok, bind-eq-ok, Option-cases, inl, inr,
}
use goldboot.Reference.Text.{
  strip_prefix, rfind, contains, strip_prefix-some, find-append, find_absent, rfind-append,
  rfind_absent, rfind-append_absent, drop_past, drop-append_found, contains_front, contains-append,
  first_unique,
}
use goldboot.Reference.{
  ImageRef, http, https, split_scheme, split_tag, split_host, build_ref, parse, tag_text, to_string,
  is_ref_byte, is_host_byte, host_without_scheme, host_bare, validate_part, validate,
  validate_ref_segment,
}
use goldboot.Reference.Segment.{validate_ref_segment_iff, validate_host_segment_iff}

-- Bytes of names and tags are no separators; bytes of hosts are no slash.
ref_bytes_plain :
    (s : List ℕ)
    → All (λ b. is_ref_byte b ≡ true) s
    → (contains b'/' s ≡ false) × (contains b':' s ≡ false)
unfolding contains
ref_bytes_plain [] h = (refl, refl)
ref_bytes_plain (b ∷ s) h = ground (arith, ref_bytes_plain s h.1, h.0)

host_bytes_plain : (s : List ℕ) → All (λ b. is_host_byte b ≡ true) s → contains b'/' s ≡ false
unfolding contains
host_bytes_plain [] h = refl
host_bytes_plain (b ∷ s) h = ground (arith, host_bytes_plain s h.1, h.0)

-- A segment with no separator in it.
record IsPlain (s : List ℕ) : Type 0 where
  no_slash : contains b'/' s ≡ false
  no_colon : contains b':' s ≡ false

abbrev IsPlainTag : Option (List ℕ) → Type 0
IsPlainTag none = Unit
IsPlainTag (some t) = IsPlain t

-- Where two slashes stand behind a front without one, the text is no host, slash and name.
no_scheme :
    (front bare name tail rest : List ℕ)
    → contains b'/' front ≡ false
    → contains b'/' bare ≡ false
    → contains b'/' name ≡ false
    → 0 < length name
    → bare ++ b'/' ∷ (name ++ tail) ≢ front ++ b'/' ∷ b'/' ∷ rest
unfolding contains
no_scheme front bare [] tail rest hf hb hn pos e = elim pos [ ]
no_scheme front bare (x ∷ name) tail rest hf hb hn pos e =
    ground (arith, first_unique b'/' bare front (x ∷ (name ++ tail)) (b'/' ∷ rest) hb hf e)

tag_of_tagged : (front t : List ℕ) → IsPlain t → split_tag (front ++ b':' ∷ t) ≡ (front, some t)
unfolding split_tag
tag_of_tagged front t v =
    rw
      (
        rfind-append b':' front t v.no_colon,
        split_tag,
        drop_past b':' front t,
        v.no_slash,
        take-append front (b':' ∷ t),
      )
      refl

tag_of_bare_name : (name : List ℕ) → IsPlain name → split_tag name ≡ (name, none)
unfolding split_tag
tag_of_bare_name name v = rw (rfind_absent b':' name v.no_colon, split_tag) refl

tag_of_untagged :
    (bare name : List ℕ)
    → IsPlain name
    → split_tag (bare ++ b'/' ∷ name) ≡ (bare ++ b'/' ∷ name, none)
unfolding split_tag contains
tag_of_untagged bare name v = elim (Option-cases (rfind b':' bare)) [
  | inl e ↦ rw (moved, e, split_tag) refl
  | inr (i, e) ↦
      rw
        (
          moved,
          e,
          split_tag,
          drop-append_found b':' bare (b'/' ∷ name) i e,
          contains_front b'/' (drop (suc i) bare) name,
        )
        refl
]
  where
    moved : rfind b':' (bare ++ b'/' ∷ name) ≡ rfind b':' bare
    moved = rfind-append_absent b':' bare (b'/' ∷ name) v.no_colon

-- The tag of a displayed reference is found again, with a host and without.
split_tag-host :
    (bare name : List ℕ) (tag : Option (List ℕ))
    → IsPlain name
    → IsPlainTag tag
    → split_tag (bare ++ b'/' ∷ (name ++ tag_text tag)) ≡ (bare ++ b'/' ∷ name, tag)
split_tag-host bare name none v t = rw (append-nil name) (tag_of_untagged bare name v)
split_tag-host bare name (some tag) v t =
    rw (← append_assoc bare (b'/' ∷ name) (b':' ∷ tag)) (tag_of_tagged (bare ++ b'/' ∷ name) tag t)

split_tag-name :
    (name : List ℕ) (tag : Option (List ℕ))
    → IsPlain name
    → IsPlainTag tag
    → split_tag (name ++ tag_text tag) ≡ (name, tag)
split_tag-name name none v t = rw (append-nil name) (tag_of_bare_name name v)
split_tag-name name (some tag) v t = tag_of_tagged name tag t

split_host-found :
    (p bare name : List ℕ)
    → contains b'/' bare ≡ false
    → split_host p (bare ++ b'/' ∷ name) ≡ ok (some (p ++ bare), name)
unfolding split_host
split_host-found p bare name h =
    rw
      (
        find-append b'/' bare name h,
        split_host,
        take-append bare (b'/' ∷ name),
        drop_past b'/' bare name,
      )
      refl

split_host-none :
    (name : List ℕ) → contains b'/' name ≡ false → split_host [] name ≡ ok (none, name)
unfolding split_host
split_host-none name h = rw (find_absent b'/' name h, split_host) refl

build_ref-named :
    (host : Option (List ℕ)) (name : List ℕ) (tag : Option (List ℕ))
    → 0 < length name
    → build_ref host name tag ≡ ok (record { host = host; name = name; tag = tag })
unfolding build_ref
build_ref-named host name tag h = ground arith

-- `parse` from what its stages find.
parse_by_stages :
    (s p rest ref_no_tag name : List ℕ) (host tag : Option (List ℕ))
    → split_scheme s ≡ (p, rest)
    → split_tag rest ≡ (ref_no_tag, tag)
    → split_host p ref_no_tag ≡ ok (host, name)
    → 0 < length name
    → parse s ≡ ok (record { host = host; name = name; tag = tag })
unfolding parse
parse_by_stages s p rest ref_no_tag name host tag e₁ e₂ e₃ h =
    rw (e₁, e₂, e₃) (build_ref-named host name tag h)

-- A host text in its parts: the scheme that `split_scheme` takes off, and the bare host.
record HostParts (h after : List ℕ) : Type 0 where
  scheme : List ℕ
  bare : List ℕ
  joined : h ≡ scheme ++ bare
  no_slash : contains b'/' bare ≡ false
  split : split_scheme (h ++ b'/' ∷ after) ≡ (scheme, bare ++ b'/' ∷ after)

split_scheme-https : (s : List ℕ) → split_scheme (https ++ s) ≡ (https, s)
unfolding split_scheme strip_prefix
split_scheme-https s = refl

split_scheme-http : (s : List ℕ) → split_scheme (http ++ s) ≡ (http, s)
unfolding split_scheme strip_prefix
split_scheme-http s = refl

split_scheme-none :
    (s : List ℕ)
    → strip_prefix http s ≡ none
    → strip_prefix https s ≡ none
    → split_scheme s ≡ ([], s)
unfolding split_scheme
split_scheme-none s e e' = rw (e, e', split_scheme) refl

-- A prefix that cannot be there is not found.
strip_prefix_absent : (p s : List ℕ) → ((rest : List ℕ) → s ≢ p ++ rest) → strip_prefix p s ≡ none
strip_prefix_absent p s h = elim (Option-cases (strip_prefix p s)) [
  | inl e ↦ e
  | inr (rest, e) ↦ absurd (h rest (strip_prefix-some p s rest e))
]

with_scheme :
    (p h bare after : List ℕ)
    → h ≡ p ++ bare
    → contains b'/' bare ≡ false
    → ((s : List ℕ) → split_scheme (p ++ s) ≡ (p, s))
    → HostParts h after
with_scheme p h bare after e plain split = record {
  scheme = p;
  bare = bare;
  joined = e;
  no_slash = plain;
  split = rw (e, append_assoc p bare (b'/' ∷ after)) (split (bare ++ b'/' ∷ after));
}

bare_host :
    (h name tail : List ℕ)
    → contains b'/' h ≡ false
    → contains b'/' name ≡ false
    → 0 < length name
    → HostParts h (name ++ tail)
unfolding contains
bare_host h name tail plain hn pos = record {
  scheme = [];
  bare = h;
  joined = refl;
  no_slash = plain;
  split =
      split_scheme-none _
        (strip_prefix_absent http _ λ rest.
          no_scheme (b'h' ∷ b't' ∷ b't' ∷ b'p' ∷ b':' ∷ []) h name tail rest refl plain hn pos)
        (strip_prefix_absent https _ λ rest.
          no_scheme (b'h' ∷ b't' ∷ b't' ∷ b'p' ∷ b's' ∷ b':' ∷ []) h name tail rest refl plain hn
            pos);
}

host_parts :
    (h name tail : List ℕ)
    → contains b'/' (host_without_scheme h) ≡ false
    → contains b'/' name ≡ false
    → 0 < length name
    → HostParts h (name ++ tail)
unfolding host_without_scheme
host_parts h name tail plain hn pos = elim (Option-cases (strip_prefix https h)) [
  | inr (bare, e) ↦
      with_scheme https h bare _ (strip_prefix-some https h bare e)
        (rw (e, host_without_scheme) at plain) split_scheme-https
  | inl e ↦ elim (Option-cases (strip_prefix http h)) [
    | inr (bare, e') ↦
        with_scheme http h bare _ (strip_prefix-some http h bare e')
          (rw (e, e', host_without_scheme) at plain) split_scheme-http
    | inl e' ↦ bare_host h name tail (rw (e, e', host_without_scheme) at plain) hn pos
  ]
]

-- What `validate` establishes of each part.
record IsPlainRef (r : ImageRef) : Type 0 where
  named : 0 < length r.name
  plain_name : IsPlain r.name
  plain_tag : IsPlainTag r.tag
  plain_host : (h : List ℕ) → r.host ≡ some h → contains b'/' (host_without_scheme h) ≡ false

segment-IsPlain : (s : List ℕ) → validate_ref_segment s ≡ ok tt → IsPlain s
segment-IsPlain s h =
    let (no_slash, no_colon) = ref_bytes_plain s ((validate_ref_segment_iff s).0 h).bytes_allowed in
    record { no_slash = no_slash; no_colon = no_colon }

tag-IsPlain :
    (tag : Option (List ℕ)) → validate_part validate_ref_segment tag ≡ ok tt → IsPlainTag tag
unfolding validate_part
tag-IsPlain none h = tt
tag-IsPlain (some t) h = segment-IsPlain t h

validate-IsPlainRef : (r : ImageRef) → validate r ≡ ok tt → IsPlainRef r
unfolding validate validate_part host_bare
validate-IsPlainRef r h =
    let (u, name_ok, h₁) = bind-eq-ok (validate_ref_segment r.name) _ h in
    let (v, tag_ok, host_ok) = bind-eq-ok (validate_part validate_ref_segment r.tag) _ h₁ in
    record {
      named = ((validate_ref_segment_iff r.name).0 name_ok).nonempty;
      plain_name = segment-IsPlain r.name name_ok;
      plain_tag = tag-IsPlain r.tag tag_ok;
      plain_host = λ host e.
          host_bytes_plain (host_without_scheme host)
            ((validate_host_segment_iff (host_without_scheme host)).0
              (rw e at host_ok)).bytes_allowed;
    }

parse-hosted :
    (h name : List ℕ) (tag : Option (List ℕ))
    → IsPlainRef (record { host = some h; name = name; tag = tag })
    → parse (h ++ b'/' ∷ (name ++ tag_text tag))
      ≡ ok (record { host = some h; name = name; tag = tag })
parse-hosted h name tag v =
    let parts =
      host_parts h name (tag_text tag) (v.plain_host h refl) v.plain_name.no_slash v.named in
    parse_by_stages _ parts.scheme _ _ name (some h) tag parts.split
      (split_tag-host parts.bare name tag v.plain_name v.plain_tag)
      (rw parts.joined (split_host-found parts.scheme parts.bare name parts.no_slash)) v.named

no_slash_tail :
    (name : List ℕ) (tag : Option (List ℕ))
    → IsPlain name
    → IsPlainTag tag
    → contains b'/' (name ++ tag_text tag) ≡ false
unfolding contains
no_slash_tail name none v t = rw (append-nil name) v.no_slash
no_slash_tail name (some tag) v t =
    rw (contains-append b'/' name (b':' ∷ tag), v.no_slash) t.no_slash

parse-unhosted :
    (name : List ℕ) (tag : Option (List ℕ))
    → IsPlainRef (record { host = none; name = name; tag = tag })
    → parse (name ++ tag_text tag) ≡ ok (record { host = none; name = name; tag = tag })
unfolding contains
parse-unhosted name tag v =
    let plain = no_slash_tail name tag v.plain_name v.plain_tag in
    parse_by_stages _ [] _ _ name none tag
      (split_scheme-none _ (strip_prefix_absent http _ λ rest e. cc (rw e at plain))
        (strip_prefix_absent https _ λ rest e. cc (rw e at plain)))
      (split_tag-name name tag v.plain_name v.plain_tag)
      (split_host-none name v.plain_name.no_slash) v.named

parse_parts :
    (host : Option (List ℕ)) (name : List ℕ) (tag : Option (List ℕ))
    → IsPlainRef (record { host = host; name = name; tag = tag })
    → parse (to_string (record { host = host; name = name; tag = tag }))
      ≡ ok (record { host = host; name = name; tag = tag })
unfolding to_string
parse_parts none name tag v = parse-unhosted name tag v
parse_parts (some h) name tag v =
    rw (append_assoc h (b'/' ∷ []) (name ++ tag_text tag)) (parse-hosted h name tag v)

-- A reference that `validate` accepts is parsed back, whole, from its display.
pub parse-to_string : (r : ImageRef) → validate r ≡ ok tt → parse (to_string r) ≡ ok r
parse-to_string r h = parse_parts r.host r.name r.tag (validate-IsPlainRef r h)
