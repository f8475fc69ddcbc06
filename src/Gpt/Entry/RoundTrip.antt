-- ===== src/Gpt/Entry/RoundTrip.antt =====
-- A partition entry comes back from the bytes that are written for it.
use goldboot.Base.{
  bind, Result, ℕ, zero, suc, ◌+◌, ◌-◌, ◌*◌, ◌^◌, ◌≤◌, ◌<◌, List, [], ◌∷◌, ◌++◌, length, take,
  replicate, ltb, ◌==◌, ok, write_at, le_bytes, of_le, be_bytes, false, of_le-le_bytes,
  of_be-be_bytes, pad_to, length-le_bytes, length-append, length-replicate, write_at-over,
  append_assoc, All, All-append, ◌≡◌, refl, sym, ap, ◌∙◌, inl, inr, arith, Bool-cases,
}
use goldboot.Gpt.Utf16.{
  IsScalar, encode_char, encode_utf16, from_utf16_lossy, from_utf16_lossy-encode_utf16,
}
use goldboot.Gpt.Entry.{
  Uuid, guid_from_disk, guid_to_disk, PartitionEntry, code_units, until_zero, parse_entry,
  write_name, entry_to_disk,
}

-- The fields fit their widths, and the name is of characters other than NUL and fits 36 code units.
pub record IsUuid (u : Uuid) : Type 0 where
  pub d1_fits : u.d1 < 256 ^ 4
  pub d2_fits : u.d2 < 256 ^ 2
  pub d3_fits : u.d3 < 256 ^ 2
  pub tail_fits : u.tail < 256 ^ 8

abbrev pub IsNameChar : ℕ → Type 0
IsNameChar c = IsScalar c × (0 < c)

pub record IsEntry (e : PartitionEntry) : Type 0 where
  pub type_valid : IsUuid e.type_guid
  pub unique_valid : IsUuid e.unique_guid
  pub first_fits : e.first_lba < 256 ^ 8
  pub last_fits : e.last_lba < 256 ^ 8
  pub attributes_fit : e.attributes < 256 ^ 8
  pub name_valid : All IsNameChar e.name
  pub name_short : length (encode_utf16 e.name) ≤ 36

pub guid_from_disk-guid_to_disk : (u : Uuid) → IsUuid u → guid_from_disk (guid_to_disk u) ≡ u
unfolding guid_from_disk guid_to_disk write_at pad_to le_bytes be_bytes
guid_from_disk-guid_to_disk u v = λ i. record {
  d1 = of_le-le_bytes 4 u.d1 v.d1_fits i;
  d2 = of_le-le_bytes 2 u.d2 v.d2_fits i;
  d3 = of_le-le_bytes 2 u.d3 v.d3_fits i;
  tail = of_be-be_bytes 8 u.tail v.tail_fits i;
}

-- The words of a name as bytes.
abbrev pub unit_bytes : List ℕ → List ℕ
unit_bytes [] = []
unit_bytes (c ∷ cs) = le_bytes 2 c ++ unit_bytes cs

-- The loop puts the words at the front of the zeros behind the fields.
write_name_layout :
    (i : ℕ) (cs front : List ℕ) (m n : ℕ)
    → length front ≡ 56 + i * 2
    → n ≡ length cs * 2 + m
    → write_name i cs (front ++ replicate n 0) ≡ front ++ (unit_bytes cs ++ replicate m 0)
unfolding write_name
write_name_layout i [] front m n at h = ap (λ (k : ℕ). front ++ replicate k 0) (omega arith)
write_name_layout i (c ∷ cs) front m n at h =
    let word = le_bytes 2 c in
    let more : n ≡ suc (suc (length cs * 2 + m)) = omega arith in
    let zeros : List ℕ = replicate (length cs * 2 + m) 0 in
    let once : write_at (56 + i * 2) word (front ++ replicate n 0) ≡ (front ++ word) ++ zeros =
      ap (λ (at : ℕ). write_at at word (front ++ replicate n 0)) (sym at)
      ∙ ap (λ (k : ℕ). write_at (length front) word (front ++ replicate k 0)) more
      ∙ write_at-over front (0 ∷ 0 ∷ []) word zeros (sym (length-le_bytes 2 c))
      ∙ sym (append_assoc front word zeros) in
    ap (write_name (suc i) cs) once
    ∙ write_name_layout (suc i) cs (front ++ word) m (length cs * 2 + m)
        (omega (arith, length-append front word, length-le_bytes 2 c)) refl
    ∙ append_assoc front word (unit_bytes cs ++ replicate m 0)
    ∙ ap (λ (t : List ℕ). front ++ t) (sym (append_assoc word (unit_bytes cs) (replicate m 0)))

abbrev IsUnit : ℕ → Type 0
IsUnit c = (0 < c) × (c < 256 ^ 2)

until_zero-zeros : (m : ℕ) → until_zero (code_units (replicate m 0)) ≡ []
unfolding until_zero code_units of_le
until_zero-zeros zero = refl
until_zero-zeros (suc zero) = refl
until_zero-zeros (suc (suc m)) = refl

-- The words come back, up to the first zero.
until_zero-code_units :
    (cs : List ℕ) (m : ℕ)
    → All IsUnit cs
    → until_zero (code_units (unit_bytes cs ++ replicate m 0)) ≡ cs
unfolding until_zero code_units le_bytes
until_zero-code_units [] m h = until_zero-zeros m
until_zero-code_units (c ∷ cs) m h =
    let word = of_le-le_bytes 2 c h.0.1 in
    let some_unit : (of_le (le_bytes 2 c) == 0) ≡ false = ground arith in
    rw some_unit (
      ap (λ (x : ℕ). x ∷ until_zero (code_units (unit_bytes cs ++ replicate m 0))) word
      ∙ ap (λ (t : List ℕ). c ∷ t) (until_zero-code_units cs m h.1))

encode_char-IsUnit : (c : ℕ) → IsNameChar c → All IsUnit (encode_char c)
unfolding encode_char
encode_char-IsUnit c h = elim (Bool-cases (ltb c 0x10000)) [
  | inl q ↦ rw q ((h.1, ground arith), tt)
  | inr q ↦
      let scalar : c < 0x110000 = elim h.0 [ inl l ↦ omega arith | inr l ↦ l.1 ] in
      rw q ((omega arith, ground arith), ((omega arith, omega arith), tt))
]

encode_utf16-IsUnit : (cs : List ℕ) → All IsNameChar cs → All IsUnit (encode_utf16 cs)
unfolding encode_utf16
encode_utf16-IsUnit [] h = tt
encode_utf16-IsUnit (c ∷ cs) h =
    All-append IsUnit (encode_char c) (encode_utf16 cs) (encode_char-IsUnit c h.0)
      (encode_utf16-IsUnit cs h.1)

take_within : (n : ℕ) (xs : List ℕ) → length xs ≤ n → take n xs ≡ xs
take_within zero [] h = refl
take_within zero (x ∷ xs) h = absurd (omega arith)
take_within (suc n) [] h = refl
take_within (suc n) (x ∷ xs) h = ap (λ (t : List ℕ). x ∷ t) (take_within n xs (omega arith))

-- The fields before the name.
abbrev pub fields : PartitionEntry → List ℕ
fields e =
    guid_to_disk e.type_guid
    ++ (guid_to_disk e.unique_guid
        ++ (le_bytes 8 e.first_lba ++ (le_bytes 8 e.last_lba ++ le_bytes 8 e.attributes)))

abbrev pub name_field : List ℕ → List ℕ
name_field name =
    unit_bytes (encode_utf16 name) ++ replicate (72 - length (encode_utf16 name) * 2) 0

-- The 128 bytes of an entry.
abbrev pub entry_bytes : PartitionEntry → List ℕ
entry_bytes e = fields e ++ name_field e.name

pub entry_layout : (e : PartitionEntry) → IsEntry e → entry_to_disk e 128 ≡ ok (entry_bytes e)
unfolding entry_to_disk guid_to_disk write_at pad_to le_bytes be_bytes
entry_layout e v =
    let units = encode_utf16 e.name in
    let whole = take_within 36 units v.name_short in
    let fits : ltb 128 (56 + length (take 36 units) * 2) ≡ false =
      ground (arith, ap length whole) in
    rw (fits, whole)
      (ap ok (
        write_name_layout 0 units (fields e) (72 - length units * 2) 72 refl
          (omega (arith, v.name_short))))

length-unit_bytes : (cs : List ℕ) → length (unit_bytes cs) ≡ length cs * 2
unfolding le_bytes
length-unit_bytes [] = refl
length-unit_bytes (c ∷ cs) = omega (arith, length-unit_bytes cs)

length-name_field :
    (name : List ℕ) → length (encode_utf16 name) ≤ 36 → length (name_field name) ≡ 72
length-name_field name h =
    let units = encode_utf16 name in
    omega (
      arith,
      length-append (unit_bytes units) (replicate (72 - length units * 2) 0),
      length-unit_bytes units,
      length-replicate {A = ℕ} (72 - length units * 2) 0,
    )

pub length-entry_bytes : (e : PartitionEntry) → IsEntry e → length (entry_bytes e) ≡ 128
unfolding guid_to_disk write_at pad_to le_bytes be_bytes
length-entry_bytes e v =
    length-append (fields e) (name_field e.name)
    ∙ ap (λ (n : ℕ). 56 + n) (length-name_field e.name v.name_short)

scalars : (name : List ℕ) → All IsNameChar name → All IsScalar name
scalars [] h = tt
scalars (c ∷ cs) h = (h.0.0, scalars cs h.1)

name_back :
    (name : List ℕ)
    → All IsNameChar name
    → from_utf16_lossy (until_zero (code_units (name_field name))) ≡ name
name_back name h =
    ap from_utf16_lossy (
      until_zero-code_units (encode_utf16 name) (72 - length (encode_utf16 name) * 2)
        (encode_utf16-IsUnit name h))
    ∙ from_utf16_lossy-encode_utf16 name (scalars name h)

-- An entry comes back, with the number that its place gives it.
pub parse_entry-entry_bytes :
    (i : ℕ) (e : PartitionEntry)
    → IsEntry e
    → parse_entry i (entry_bytes e) ≡ ok (record e { index = i })
unfolding parse_entry guid_to_disk write_at pad_to le_bytes be_bytes
parse_entry-entry_bytes i e v =
    let long : ltb (length (entry_bytes e)) 56 ≡ false = ground (arith, length-entry_bytes e v) in
    rw long λ i'. ok (record {
      index = i;
      type_guid = guid_from_disk-guid_to_disk e.type_guid v.type_valid i';
      unique_guid = guid_from_disk-guid_to_disk e.unique_guid v.unique_valid i';
      first_lba = of_le-le_bytes 8 e.first_lba v.first_fits i';
      last_lba = of_le-le_bytes 8 e.last_lba v.last_fits i';
      attributes = of_le-le_bytes 8 e.attributes v.attributes_fit i';
      name = name_back e.name v.name_valid i';
    })

-- A partition entry that is written into 128 bytes is read back from them, with the number of its slot,
-- when its fields fit their widths and its name has no NUL and at most 36 code units.
pub parse_entry-entry_to_disk :
    (i : ℕ) (e : PartitionEntry)
    → IsEntry e
    → bind (entry_to_disk e 128) (parse_entry i) ≡ ok (record e { index = i })
parse_entry-entry_to_disk i e v =
    ap (λ (r : Result (List ℕ)). bind r (parse_entry i)) (entry_layout e v)
    ∙ parse_entry-entry_bytes i e v
