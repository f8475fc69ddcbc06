-- ===== src/Gpt/Fixup/Entries.antt =====
-- Changing the end of one entry in the array changes that field of that entry only.
use goldboot.Base.{
  ℕ, zero, suc, ◌+◌, ◌*◌, ◌^◌, ◌≤◌, ◌<◌, true, false, List, [], ◌∷◌, length, drop, slice, ltb, ◌==◌,
  ==_iff, ==_refl, if◌then◌else◌, map, ok, bind-eq-ok, write_at, length-write_at, slice-write_at,
  slice_apart-write_at, slice_inside-write_at, drop-write_at, le_bytes, of_le, of_le-le_bytes,
  length-le_bytes, length-take, length-drop, ◌≡◌, ◌≢◌, refl, sym, ap, ◌∙◌, inl, inr, arith,
  Bool-cases,
}
use native.Mathlib.Nat.{suc-mul, mul-le-mul_right}
use goldboot.Gpt.Entry.{PartitionEntry, parse_entry, guid_from_disk, code_units, until_zero}
use goldboot.Gpt.Utf16.{from_utf16_lossy}
use goldboot.Gpt.Table.{parse_entries}

-- The entry of that number, ending elsewhere.
abbrev pub grow : ℕ → ℕ → PartitionEntry → PartitionEntry
grow index last e = if e.index == index then record e { last_lba = last } else e

abbrev pub parsed : ℕ → List ℕ → PartitionEntry
parsed i raw = record {
  index = i;
  type_guid = guid_from_disk (slice 0 16 raw);
  unique_guid = guid_from_disk (slice 16 16 raw);
  first_lba = of_le (slice 32 8 raw);
  last_lba = of_le (slice 40 8 raw);
  attributes = of_le (slice 48 8 raw);
  name = from_utf16_lossy (until_zero (code_units (drop 56 raw)));
}

parse_entry-parsed :
    (i : ℕ) (raw : List ℕ) → 56 ≤ length raw → parse_entry i raw ≡ ok (parsed i raw)
unfolding parse_entry
parse_entry-parsed i raw h = let long : ltb (length raw) 56 ≡ false = ground arith in rw long refl

pub parse_entry-ok :
    (i : ℕ) (raw : List ℕ) (e : PartitionEntry)
    → parse_entry i raw ≡ ok e
    → (56 ≤ length raw) × (parsed i raw ≡ e)
unfolding parse_entry
parse_entry-ok i raw e h = elim (Bool-cases (ltb (length raw) 56)) [
  | inl q ↦ let no = rw q at h in cc
  | inr q ↦ let yes = rw q at h in (ground arith, cc)
]

-- One raw entry with another end.
parsed_grown :
    (i v : ℕ) (raw : List ℕ)
    → 56 ≤ length raw
    → v < 256 ^ 8
    → parsed i (write_at 40 (le_bytes 8 v) raw) ≡ record (parsed i raw) { last_lba = v }
parsed_grown i v raw long fits =
    let eight = length-le_bytes 8 v in
    let room : 40 + length (le_bytes 8 v) ≤ length raw = omega arith in
    let keeps = slice_apart-write_at 40 (le_bytes 8 v) raw in
    let type_guid = ap guid_from_disk (keeps 0 16 room (inl (omega arith))) in
    let unique_guid = ap guid_from_disk (keeps 16 16 room (inl (omega arith))) in
    let first_lba = ap of_le (keeps 32 8 room (inl (omega arith))) in
    let attributes = ap of_le (keeps 48 8 room (inr (omega arith))) in
    let last_lba =
      ap of_le (
        ap (λ (n : ℕ). slice 40 n (write_at 40 (le_bytes 8 v) raw)) (sym eight)
        ∙ slice-write_at 40 (le_bytes 8 v) raw room)
      ∙ of_le-le_bytes 8 v fits in
    let name =
      ap (λ (t : List ℕ). from_utf16_lossy (until_zero (code_units t)))
        (drop-write_at 40 (le_bytes 8 v) raw room 56 (omega arith)) in
    λ j. record {
      index = i;
      type_guid = type_guid j;
      unique_guid = unique_guid j;
      first_lba = first_lba j;
      last_lba = last_lba j;
      attributes = attributes j;
      name = name j;
    }

suc_differs : (i k : ℕ) → (i == k) ≡ false → (suc i == suc k) ≡ false
suc_differs i k h = ground arith

differs : (i k : ℕ) → (i == k) ≡ false → i ≢ k
differs i k h e = absurd (ground arith)

module _ (s k v : ℕ) (raw : List ℕ) (large : 56 ≤ s) (there : k * s + s ≤ length raw)
    (fits : v < 256 ^ 8) where
  abbrev pub changed : List ℕ
  changed = write_at (k * s + 40) (le_bytes 8 v) raw

  room : k * s + 40 + length (le_bytes 8 v) ≤ length raw
  room = omega (arith, length-le_bytes 8 v)

  entry_there : (i : ℕ) → i * s + s ≤ length raw → 56 ≤ length (slice (i * s) s raw)
  entry_there i h = omega (arith, length-take s (drop (i * s) raw), length-drop (i * s) raw)

  same_entry : slice (k * s) s changed ≡ write_at 40 (le_bytes 8 v) (slice (k * s) s raw)
  same_entry =
      slice_inside-write_at (k * s) s 40 (le_bytes 8 v) raw there
        (omega (arith, length-le_bytes 8 v))

  other_entry : (i : ℕ) → i ≢ k → slice (i * s) s changed ≡ slice (i * s) s raw
  other_entry i h = elim (Bool-cases (ltb i k)) [
    | inl q ↦
        slice_apart-write_at (k * s + 40) (le_bytes 8 v) raw (i * s) s room
          (inl (omega (arith, suc-mul i s, mul-le-mul_right {m = suc i} {n = k} s (ground arith))))
    | inr q ↦
        let above : suc k ≤ i = ground arith in
        slice_apart-write_at (k * s + 40) (le_bytes 8 v) raw (i * s) s room (
          inr (
            omega (
              arith,
              suc-mul k s,
              length-le_bytes 8 v,
              mul-le-mul_right {m = suc k} {n = i} s above,
            )))
  ]

  entry_grown :
      (i : ℕ) (e : PartitionEntry)
      → i * s + s ≤ length raw
      → parse_entry (suc i) (slice (i * s) s raw) ≡ ok e
      → parse_entry (suc i) (slice (i * s) s changed) ≡ ok (grow (suc k) v e)
  entry_grown i e h one =
      let (long, same) = parse_entry-ok (suc i) (slice (i * s) s raw) e one in
      elim (Bool-cases (i == k)) [
        | inl q ↦
            let at : i ≡ k = (==_iff i k).0 q in
            let here : slice (i * s) s changed ≡ write_at 40 (le_bytes 8 v) (slice (i * s) s raw) =
              ap (λ (j : ℕ). slice (j * s) s changed) at
              ∙ same_entry
              ∙ ap (λ (j : ℕ). write_at 40 (le_bytes 8 v) (slice (j * s) s raw)) (sym at) in
            let long' =
              length-write_at 40 (le_bytes 8 v) (slice (i * s) s raw)
                (omega (arith, length-le_bytes 8 v)) in
            let hit : (suc i == suc k) ≡ true =
              ap (λ (j : ℕ). suc j == suc k) at ∙ ==_refl (suc k) in
            ap (parse_entry (suc i)) here
            ∙ parse_entry-parsed (suc i) (write_at 40 (le_bytes 8 v) (slice (i * s) s raw))
                (omega arith)
            ∙ ap ok (parsed_grown (suc i) v (slice (i * s) s raw) long fits)
            ∙ rw⁻¹ same (rw hit refl)
        | inr q ↦
            let miss : (suc i == suc k) ≡ false = suc_differs i k q in
            ap (parse_entry (suc i)) (other_entry i (differs i k q))
            ∙ one
            ∙ rw⁻¹ same (rw miss refl)
      ]

  pub parse_entries-grown :
      (n i : ℕ) (all : List PartitionEntry)
      → (i + n) * s ≤ length raw
      → parse_entries n s i raw ≡ ok all
      → parse_entries n s i changed ≡ ok (map (grow (suc k) v) all)
  unfolding parse_entries
  parse_entries-grown zero i all h one =
      let none_left : [] ≡ all = cc in
      ap (λ (t : List PartitionEntry). ok (map (grow (suc k) v) t)) none_left
  parse_entries-grown (suc n) i all h one =
      let first = bind-eq-ok (parse_entry (suc i) (slice (i * s) s raw)) _ one in
      let others = bind-eq-ok (parse_entries n s (suc i) raw) _ first.2 in
      let joined : first.0 ∷ others.0 ≡ all = let last = others.2 in cc in
      let here : suc i * s ≤ (i + suc n) * s =
        mul-le-mul_right {m = suc i} {n = i + suc n} s (omega arith) in
      let further : (suc i + n) * s ≡ (i + suc n) * s = ap (λ (j : ℕ). j * s) (omega arith) in
      rw
        (
          entry_grown i first.0 (omega (arith, suc-mul i s)) first.1,
          parse_entries-grown n (suc i) others.0 (omega arith) others.1,
        )
        (ap (λ (t : List PartitionEntry). ok (map (grow (suc k) v) t)) joined)
