-- ===== src/Manifest/RoundTrip.antt =====
-- The manifest that is written is the manifest that is read; a section over the cap is refused.
use goldboot.Base.{
  ℕ, ◌%◌, ◌^◌, ◌≤◌, ◌<◌, ◌≡◌, ◌↔◌, refl, sym, subst, ◌∙◌, Bool, true, false, not, List, [], ◌∷◌,
  ◌++◌, length, take, drop, arith, ltb, ◌==◌, if◌then◌else◌, bit_and, ok, ap, be_bytes, of_be,
  length-be_bytes, of_be-be_bytes, be_bytes-of_be, of_be_bound, IsByte, All, All-front, read_exact,
  Reads, read_exact-Reads, Reads-bind, Reads-last, Reads-require, require, pure, ◌>>=◌, ◌>>◌,
  bind-eq-ok, Bool-cases, inl, inr, append_assoc, take-append-drop, length-take,
}
use goldboot.Manifest.{
  ManifestBlob, manifest_magic, manifest_version, manifest_flag_headers_encrypted, section_cap,
  read_length_prefixed, write_length_prefixed, read_from, write_to,
}

bytes-Reads : {n : ℕ} (bs : List ℕ) → n ≡ length bs → Reads (read_exact n) bs bs
bytes-Reads bs h = rw h (read_exact-Reads bs)

-- Every section is within the 32 MiB that the reader takes.
pub record IsManifest (m : ManifestBlob) : Type 0 where
  pub primary_fits : length m.primary_bytes ≤ section_cap
  pub protected_fits : length m.protected_bytes ≤ section_cap
  pub directory_fits : length m.directory_bytes ≤ section_cap
  pub digest_table_fits : length m.digest_table_bytes ≤ section_cap

prefix_value :
    (bs : List ℕ) → length bs ≤ section_cap → of_be (be_bytes 4 (length bs % 2 ^ 32)) ≡ length bs
prefix_value bs h = rw (of_be-be_bytes 4 (length bs % 2 ^ 32) (omega arith)) (omega arith)

within_cap : (n : ℕ) → n ≤ section_cap → not (ltb section_cap n) ≡ true
within_cap n h = ground arith

section-Reads :
    (bs : List ℕ)
    → length bs ≤ section_cap
    → Reads read_length_prefixed (write_length_prefixed bs) bs
unfolding read_length_prefixed write_length_prefixed
section-Reads bs h =
    Reads-bind _ (bytes-Reads (be_bytes 4 (length bs % 2 ^ 32)) (rw length-be_bytes refl))
      (rw (prefix_value bs h) (Reads-require _ (within_cap (length bs) h) (read_exact-Reads bs)))

abbrev flag_byte : Bool → ℕ
flag_byte encrypted = if encrypted then manifest_flag_headers_encrypted else 0

flag_value : (b : Bool) → not (bit_and (flag_byte b) manifest_flag_headers_encrypted == 0) ≡ b
flag_value true = refl
flag_value false = refl

pub read_from-Reads : (m : ManifestBlob) → IsManifest m → Reads read_from (write_to m) m
unfolding read_from write_to
read_from-Reads m v = Reads-bind _ (bytes-Reads manifest_magic refl) (
    Reads-require _ refl (
      Reads-bind _
        (bytes-Reads (manifest_version ∷ flag_byte m.headers_encrypted ∷ 0 ∷ 0 ∷ []) refl)
        (Reads-require _ refl (
          Reads-bind _ (section-Reads m.primary_bytes v.primary_fits) (
            Reads-bind _ (section-Reads m.protected_bytes v.protected_fits) (
              Reads-bind _ (section-Reads m.directory_bytes v.directory_fits) (
                Reads-last _ (section-Reads m.digest_table_bytes v.digest_table_fits) (
                  ap (λ (f : Bool). pure (record m { headers_encrypted = f }))
                    (flag_value m.headers_encrypted)))))))))

-- Reading back the bytes of `write_to` gives the manifest, whatever follows it, if each of the four
-- sections is at most 32 MiB.
pub read_from-write_to :
    (m : ManifestBlob) (rest : List ℕ)
    → IsManifest m
    → read_from (write_to m ++ rest) ≡ ok (m, rest)
read_from-write_to m rest v = (read_from-Reads m v).apply rest

-- What a reader of n bytes has read, and what it leaves.
read_exact-ok :
    (n : ℕ) (input bs rest : List ℕ)
    → read_exact n input ≡ ok (bs, rest)
    → (input ≡ bs ++ rest) × (length bs ≡ n)
unfolding read_exact
read_exact-ok n input bs rest h = elim (Bool-cases (ltb (length input) n)) [
  | inl q ↦ let no = rw q at h in cc
  | inr q ↦
      let taken : ok (take n input, drop n input) ≡ ok (bs, rest) = rw q at h in
      let front : take n input ≡ bs = cc in
      let back : drop n input ≡ rest = cc in
      let long : n ≤ length input = ground arith in
      (
        sym (take-append-drop n input)
            ∙ ap (λ (t : List ℕ). t ++ drop n input) front
            ∙ ap (λ (t : List ℕ). bs ++ t) back,
        sym (ap length front) ∙ omega (arith, length-take n input, long),
      )
]

-- Four bytes that say the length of a section are those that are written before it.
prefix_bytes :
    (head bs : List ℕ)
    → All IsByte head
    → length head ≡ 4
    → length bs ≡ of_be head
    → be_bytes 4 (length bs % 2 ^ 32) ≡ head
prefix_bytes head bs bytes four long =
    let small : of_be head < 2 ^ 32 = omega (arith, rw four at (of_be_bound head bytes)) in
    let low : length bs % 2 ^ 32 ≡ of_be head = omega (arith, long, small) in
    ap (be_bytes 4) low ∙ rw four at (be_bytes-of_be head bytes)

ltb-false : (a b : ℕ) → ltb a b ≡ false → b ≤ a
ltb-false a b h = ground arith

section_input :
    (input bs rest : List ℕ)
    → All IsByte input
    → read_length_prefixed input ≡ ok (bs, rest)
    → (length bs ≤ section_cap) × (input ≡ write_length_prefixed bs ++ rest)
unfolding read_length_prefixed write_length_prefixed ◌>>=◌ ◌>>◌ require
section_input input bs rest bytes h =
    let first = bind-eq-ok (read_exact 4 input) _ h in
    let head = first.0.0 in
    let tail = first.0.1 in
    let start = read_exact-ok 4 input head tail first.1 in
    elim (Bool-cases (ltb section_cap (of_be head))) [
      | inl q ↦ let no = rw q at first.2 in cc
      | inr q ↦
          let more : read_exact (of_be head) tail ≡ ok (bs, rest) = rw q at first.2 in
          let end = read_exact-ok (of_be head) tail bs rest more in
          let bytes' = All-front IsByte head tail (subst (All IsByte) start.0 bytes) in
          (
            rw (sym end.1) at (ltb-false section_cap (of_be head) q),
            start.0
                ∙ ap (λ (t : List ℕ). head ++ t) end.0
                ∙ ap (λ (t : List ℕ). t ++ (bs ++ rest))
                    (sym (prefix_bytes head bs bytes' start.1 end.1))
                ∙ sym (append_assoc (be_bytes 4 (length bs % 2 ^ 32)) bs rest),
          )
    ]

-- On bytes, a section is read if and only if they start with what `write_length_prefixed` writes of it
-- and it is at most 32 MiB long: nothing else is accepted, and what follows is left.
pub read_length_prefixed_iff :
    (input bs rest : List ℕ)
    → All IsByte input
    → (read_length_prefixed input ≡ ok (bs, rest))
      ↔ ((length bs ≤ section_cap) × (input ≡ write_length_prefixed bs ++ rest))
read_length_prefixed_iff input bs rest bytes = (
  section_input input bs rest bytes,
  λ (fits, written). ap read_length_prefixed written ∙ (section-Reads bs fits).apply rest,
)
