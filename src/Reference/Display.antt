-- ===== src/Reference/Display.antt =====
-- What `parse` accepts is printed back by `Display` byte for byte.
use goldboot.Base.{
  ℕ, suc, ◌<◌, ◌≡◌, sym, List, [], ◌∷◌, ◌++◌, append-nil, append_assoc, Option, none, length, take,
  drop, arith, ok, err, Result, bind-eq-ok, ◌==◌, scheme_without_host, if◌then◌else◌, Option-cases,
  Bool-cases, inl, inr,
}
use goldboot.Reference.Text.{
  strip_prefix, find, rfind, contains, strip_prefix-some, find_split, rfind_split,
}
use goldboot.Reference.{
  ImageRef, http, https, split_scheme, split_tag, split_host, build_ref, parse, host_text, tag_text,
  to_string,
}

split_scheme_join : (s : List ℕ) → (split_scheme s).0 ++ (split_scheme s).1 ≡ s
unfolding split_scheme
split_scheme_join s = elim (Option-cases (strip_prefix http s)) [
  | inr (rest, e) ↦ rw (e, split_scheme) (sym (strip_prefix-some http s rest e))
  | inl e ↦ elim (Option-cases (strip_prefix https s)) [
    | inr (rest, e') ↦ rw (e, e', split_scheme) (sym (strip_prefix-some https s rest e'))
    | inl e' ↦ rw (e, e', split_scheme)
  ]
]

split_tag_join : (s : List ℕ) → (split_tag s).0 ++ tag_text (split_tag s).1 ≡ s
unfolding split_tag
split_tag_join s = elim (Option-cases (rfind b':' s)) [
  | inl e ↦ rw (e, split_tag) (append-nil s)
  | inr (pos, e) ↦ elim (Bool-cases (contains b'/' (drop (suc pos) s))) [
    | inl slash ↦ rw (e, slash, split_tag) (append-nil s)
    | inr plain ↦ rw (e, plain, split_tag) (sym (rfind_split b':' s pos e))
  ]
]

split_host_join :
    (p s name : List ℕ) (host : Option (List ℕ))
    → split_host p s ≡ ok (host, name)
    → host_text host ++ name ≡ p ++ s
unfolding split_host
split_host_join p s name host h = elim (Option-cases (find b'/' s)) [
  | inl e ↦ no_host p (rw (e, split_host) at h)
  | inr (slash, e) ↦ cc (
    rw (e, split_host) at h,
    find_split b'/' s slash e,
    append_assoc p (take slash s) (b'/' ∷ drop (suc slash) s),
    append_assoc (p ++ take slash s) (b'/' ∷ []) (drop (suc slash) s),
  )
]
  where
    no_host :
        (q : List ℕ)
        → if◌then◌else◌ {A = Result (Option (List ℕ) × List ℕ)}
            (length q == 0)
            (ok (none, s))
            (err scheme_without_host)
          ≡ ok (host, name)
        → host_text host ++ name ≡ q ++ s
    no_host [] k = cc k
    no_host (x ∷ q) k = absurd (ground (arith, k))

pub build_ref_parts :
    (host : Option (List ℕ)) (name : List ℕ) (tag : Option (List ℕ)) (r : ImageRef)
    → build_ref host name tag ≡ ok r
    → (r.host ≡ host) × (r.name ≡ name) × (r.tag ≡ tag) × (0 < length name)
unfolding build_ref
build_ref_parts host name tag r h = ground arith

-- The stages of a successful parse.
pub parse_stages :
    (s : List ℕ) (r : ImageRef)
    → parse s ≡ ok r
    → let (scheme_prefix, rest) = split_scheme s in
      let (ref_no_tag, tag) = split_tag rest in
      (split_host scheme_prefix ref_no_tag ≡ ok (r.host, r.name))
      × (r.tag ≡ tag)
      × (0 < length r.name)
unfolding parse
parse_stages s r h =
    let (found, stage, built) = bind-eq-ok (split_host _ _) _ h in
    let (host_eq, name_eq, tag_eq, named) = build_ref_parts found.0 found.1 _ r built in
    (rw stage (cc (host_eq, name_eq)), tag_eq, rw name_eq named)

-- Displaying a parsed reference gives the text that was parsed, byte for byte.
pub to_string-parse : (s : List ℕ) (r : ImageRef) → parse s ≡ ok r → to_string r ≡ s
unfolding to_string
to_string-parse s r h =
    let (stage, tag_eq, _) = parse_stages s r h in
    let (p, rest) = split_scheme s in
    cc (
      split_host_join (split_scheme s).0 (split_tag (split_scheme s).1).0 r.name r.host stage,
      tag_eq,
      append_assoc (host_text r.host) r.name (tag_text r.tag),
      append_assoc (split_scheme s).0 (split_tag (split_scheme s).1).0 (tag_text r.tag),
      split_tag_join (split_scheme s).1,
      split_scheme_join s,
    )
