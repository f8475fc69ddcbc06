-- ===== src/Gpt/Table/Entries.antt =====
-- The array of entries: what `write_gpt` fills it with is what `read_gpt` finds in it.
use goldboot.Base.{
  ℕ, zero, suc, ◌+◌, ◌-◌, ◌*◌, ◌≤◌, List, [], ◌∷◌, ◌++◌, length, take, slice, replicate, true,
  Result, ok, bind, write_at, write_at-over, append_assoc, length-append, length-replicate,
  take-append, drop-append, replicate-add, of_le, of_be, All, ◌≡◌, refl, sym, ap, ◌∙◌, arith,
}
use goldboot.Gpt.Entry.{
  nil, PartitionEntry, is_used, parse_entry, guid_from_disk, code_units, until_zero,
}
use goldboot.Gpt.Utf16.{from_utf16_lossy}
use goldboot.Gpt.Entry.RoundTrip.{
  IsEntry, entry_bytes, entry_layout, length-entry_bytes, parse_entry-entry_bytes,
}
use goldboot.Gpt.Table.{parse_entries, used_entries}
use goldboot.Gpt.Write.{fill_entries}

-- The array's bytes, and the entries numbered from the one after i.
abbrev pub array_bytes : List PartitionEntry → List ℕ
array_bytes [] = []
array_bytes (e ∷ es) = entry_bytes e ++ array_bytes es

abbrev pub numbered : ℕ → List PartitionEntry → List PartitionEntry
numbered i [] = []
numbered i (e ∷ es) = record e { index = suc i } ∷ numbered (suc i) es

fill_entries_layout :
    (i : ℕ) (es : List PartitionEntry) (front : List ℕ) (m n : ℕ)
    → All IsEntry es
    → length front ≡ i * 128
    → n ≡ length es * 128 + m
    → fill_entries i es (front ++ replicate n 0) ≡ ok (front ++ (array_bytes es ++ replicate m 0))
unfolding fill_entries
fill_entries_layout i [] front m n v at h =
    ap (λ (k : ℕ). ok (front ++ replicate k 0)) (omega arith)
fill_entries_layout i (e ∷ es) front m n v at h =
    let block = entry_bytes e in
    let block_long = length-entry_bytes e v.0 in
    let zeros : List ℕ = replicate (length es * 128 + m) 0 in
    let split : replicate n 0 ≡ replicate 128 0 ++ zeros =
      ap (λ (k : ℕ). replicate {A = ℕ} k 0) (omega arith)
      ∙ replicate-add 128 (length es * 128 + m) 0 in
    let once : write_at (i * 128) block (front ++ replicate n 0) ≡ (front ++ block) ++ zeros =
      ap (λ (at : ℕ). write_at at block (front ++ replicate n 0)) (sym at)
      ∙ ap (λ (t : List ℕ). write_at (length front) block (front ++ t)) split
      ∙ write_at-over front (replicate 128 0) block zeros (sym block_long)
      ∙ sym (append_assoc front block zeros) in
    ap
      (λ (r : Result (List ℕ)).
        bind r λ raw. fill_entries (suc i) es (write_at (i * 128) raw (front ++ replicate n 0)))
      (entry_layout e v.0)
    ∙ ap (fill_entries (suc i) es) once
    ∙ fill_entries_layout (suc i) es (front ++ block) m (length es * 128 + m) v.1
        (omega (arith, length-append front block)) refl
    ∙ ap ok (
        append_assoc front block (array_bytes es ++ replicate m 0)
        ∙ ap (λ (t : List ℕ). front ++ t)
            (sym (append_assoc block (array_bytes es) (replicate m 0))))

-- The block at position i of an array.
slice_block :
    (i : ℕ) (front block rest : List ℕ)
    → length front ≡ i * 128
    → length block ≡ 128
    → slice (i * 128) 128 (front ++ (block ++ rest)) ≡ block
slice_block i front block rest at long =
    ap (λ (k : ℕ). slice k 128 (front ++ (block ++ rest))) (sym at)
    ∙ ap (take 128) (drop-append front (block ++ rest))
    ∙ ap (λ (k : ℕ). take k (block ++ rest)) (sym long)
    ∙ take-append block rest

abbrev blank : ℕ → PartitionEntry
blank i = record {
  index = i;
  type_guid = nil;
  unique_guid = nil;
  first_lba = 0;
  last_lba = 0;
  attributes = 0;
  name = [];
}

parse_entry-zeros : (i : ℕ) → parse_entry i (replicate 128 0) ≡ ok (blank i)
unfolding parse_entry guid_from_disk code_units until_zero from_utf16_lossy of_le of_be
parse_entry-zeros i = refl

pub blanks : ℕ → ℕ → List PartitionEntry
blanks i zero = []
blanks i (suc k) = blank (suc i) ∷ blanks (suc i) k

-- One entry of an array.
parse_block :
    (n i : ℕ) (e : PartitionEntry) (rest : List PartitionEntry) (front block back : List ℕ)
    → length front ≡ i * 128
    → length block ≡ 128
    → parse_entry (suc i) block ≡ ok e
    → parse_entries n 128 (suc i) ((front ++ block) ++ back) ≡ ok rest
    → parse_entries (suc n) 128 i (front ++ (block ++ back)) ≡ ok (e ∷ rest)
unfolding parse_entries
parse_block n i e rest front block back at long one others =
    rw (slice_block i front block back at long, one, sym (append_assoc front block back), others)
      refl

parse_blanks :
    (k i : ℕ) (front : List ℕ)
    → length front ≡ i * 128
    → parse_entries k 128 i (front ++ replicate (k * 128) 0) ≡ ok (blanks i k)
unfolding parse_entries blanks
parse_blanks zero i front at = refl
parse_blanks (suc k) i front at =
    let split : replicate {A = ℕ} (suc k * 128) 0 ≡ replicate 128 0 ++ replicate (k * 128) 0 =
      ap (λ (n : ℕ). replicate {A = ℕ} n 0) (omega arith) ∙ replicate-add 128 (k * 128) 0 in
    ap (λ (t : List ℕ). parse_entries (suc k) 128 i (front ++ t)) split
    ∙ parse_block k i (blank (suc i)) (blanks (suc i) k) front (replicate 128 0)
        (replicate (k * 128) 0) at refl (parse_entry-zeros (suc i))
        (parse_blanks k (suc i) (front ++ replicate 128 0)
          (omega (arith, length-append front (replicate 128 0), length-replicate {A = ℕ} 128 0)))

parse_array :
    (n k i : ℕ) (es : List PartitionEntry) (front : List ℕ)
    → All IsEntry es
    → length front ≡ i * 128
    → n ≡ length es + k
    → parse_entries n 128 i (front ++ (array_bytes es ++ replicate (k * 128) 0))
      ≡ ok (numbered i es ++ blanks (i + length es) k)
unfolding parse_entries
parse_array n k i [] front v at count =
    ap (λ (m : ℕ). parse_entries m 128 i (front ++ replicate (k * 128) 0)) (omega arith)
    ∙ parse_blanks k i front at
    ∙ ap (λ (j : ℕ). ok (blanks j k)) (omega arith)
parse_array zero k i (e ∷ es) front v at count = absurd (omega arith)
parse_array (suc n) k i (e ∷ es) front v at count =
    let block = entry_bytes e in
    let block_long = length-entry_bytes e v.0 in
    let zeros = replicate {A = ℕ} (k * 128) 0 in
    ap (λ (t : List ℕ). parse_entries (suc n) 128 i (front ++ t))
      (append_assoc block (array_bytes es) zeros)
    ∙ parse_block n i (record e { index = suc i }) _ front block (array_bytes es ++ zeros) at
        block_long (parse_entry-entry_bytes (suc i) e v.0)
        (parse_array n k (suc i) es (front ++ block) v.1 (omega (arith, length-append front block))
          (omega arith))
    ∙ ap (λ (j : ℕ). ok (record e { index = suc i } ∷ (numbered (suc i) es ++ blanks j k)))
        (omega arith)

used-blanks : (i k : ℕ) → used_entries (blanks i k) ≡ []
unfolding used_entries blanks is_used
used-blanks i zero = refl
used-blanks i (suc k) = used-blanks (suc i) k

abbrev pub IsUsed : PartitionEntry → Type 0
IsUsed e = is_used e ≡ true

used-numbered :
    (i j k : ℕ) (es : List PartitionEntry)
    → All IsUsed es
    → used_entries (numbered i es ++ blanks j k) ≡ numbered i es
unfolding used_entries is_used
used-numbered i j k [] u = used-blanks j k
used-numbered i j k (e ∷ es) u = rw (u.0) (
    ap (λ (t : List PartitionEntry). record e { index = suc i } ∷ t)
      (used-numbered (suc i) j k es u.1))

length-array_bytes :
    (es : List PartitionEntry) → All IsEntry es → length (array_bytes es) ≡ length es * 128
length-array_bytes [] v = refl
length-array_bytes (e ∷ es) v = omega (
  arith,
  length-append (entry_bytes e) (array_bytes es),
  length-entry_bytes e v.0,
  length-array_bytes es v.1,
)

-- The 128 slots: the entries, and zeros in the others.
abbrev pub slots : List PartitionEntry → List ℕ
slots es = array_bytes es ++ replicate ((128 - length es) * 128) 0

module _ (es : List PartitionEntry) (valid : All IsEntry es) (few : length es ≤ 128) where
  pub fill_entries-slots : fill_entries 0 es (replicate 16384 0) ≡ ok (slots es)
  fill_entries-slots =
      fill_entries_layout 0 es [] ((128 - length es) * 128) 16384 valid refl (omega arith)

  pub parse_entries-slots :
      parse_entries 128 128 0 (slots es)
      ≡ ok (numbered 0 es ++ blanks (0 + length es) (128 - length es))
  parse_entries-slots = parse_array 128 (128 - length es) 0 es [] valid refl (omega arith)

  pub used_entries-slots :
      All IsUsed es
      → used_entries (numbered 0 es ++ blanks (0 + length es) (128 - length es)) ≡ numbered 0 es
  used_entries-slots used = used-numbered 0 (0 + length es) (128 - length es) es used

  pub length-slots : length (slots es) ≡ 16384
  length-slots = omega (
    arith,
    length-append (array_bytes es) (replicate ((128 - length es) * 128) 0),
    length-array_bytes es valid,
    length-replicate {A = ℕ} ((128 - length es) * 128) 0,
  )
