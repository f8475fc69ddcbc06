-- ===== src/Gpt/Sealed.antt =====
-- What a sealed header says: its fields are those of the sector that was sealed, and its checksums
-- hold.
use native.Mathlib.Nat.{zero-add, suc-add}
use goldboot.Base.{
  zero, suc, [], ◌∷◌, drop, of_le, ℕ, ◌+◌, ◌≤◌, List, length, slice, take, replicate, write_at,
  slice-write_at, slice_apart-write_at, write_at_twice, length-write_at, le_bytes, length-le_bytes,
  ◌≡◌, refl, sym, ap, ◌∙◌, ◌⊎◌, inl, inr, arith,
}
use goldboot.Gpt.Crc.{crc32}
use goldboot.Gpt.Table.{header_of, seal_header}

-- The checksum fields are those of the entries, and of the header with its own field zeroed.
pub record ChecksumsHold (header_size : ℕ) (entries_raw sector : List ℕ) : Type 0 where
  pub entries_crc : slice 88 4 sector ≡ le_bytes 4 (crc32 entries_raw)
  pub header_crc :
      slice 16 4 sector ≡ le_bytes 4 (crc32 (take header_size (write_at 16 (replicate 4 0) sector)))

-- A range of a sector, from `at` on, that a field does not overlap.
abbrev pub IsBeside : ℕ → ℕ → ℕ → ℕ → Type 0
IsBeside field width at n = (at + n ≤ field) ⊎ (field + width ≤ at)

-- Two sectors have the same bytes in each of these ranges, by their starts and lengths.
abbrev pub AgreeOn : List (ℕ × ℕ) → List ℕ → List ℕ → Type 0
AgreeOn [] s t = Unit
AgreeOn ((at, n) ∷ ranges) s t = (slice at n s ≡ slice at n t) × AgreeOn ranges s t

-- All but the two checksums.
abbrev pub beside_checksums : List (ℕ × ℕ)
beside_checksums = (0, 16) ∷ (20, 68) ∷ (92, 420) ∷ []

-- All but the checksums, the place of the other header and the last usable sector.
abbrev pub beside_primary : List (ℕ × ℕ)
beside_primary = (0, 16) ∷ (20, 12) ∷ (40, 8) ∷ (56, 32) ∷ (92, 420) ∷ []

-- All but these, the header's own place and that of the entries.
abbrev pub beside_backup : List (ℕ × ℕ)
beside_backup = (0, 16) ∷ (20, 4) ∷ (40, 8) ∷ (56, 16) ∷ (80, 8) ∷ (92, 420) ∷ []

pub AgreeOn-trans :
    (ranges : List (ℕ × ℕ)) (s t u : List ℕ)
    → AgreeOn ranges s t
    → AgreeOn ranges t u
    → AgreeOn ranges s u
AgreeOn-trans [] s t u h k = tt
AgreeOn-trans ((at, n) ∷ ranges) s t u h k = (h.0 ∙ k.0, AgreeOn-trans ranges s t u h.1 k.1)

drop-drop : (off at : ℕ) (xs : List ℕ) → drop at (drop off xs) ≡ drop (off + at) xs
drop-drop zero at xs = rw (zero-add at) refl
drop-drop (suc off) zero [] = rw (suc-add off 0) refl
drop-drop (suc off) (suc at) [] = rw (suc-add off (suc at)) refl
drop-drop (suc off) at (x ∷ xs) = rw (suc-add off at) (drop-drop off at xs)

slice_take :
    (at n k : ℕ) (xs : List ℕ) → at + n ≤ k → take n (drop at (take k xs)) ≡ take n (drop at xs)
slice_take zero zero k xs h = refl
slice_take zero (suc n) zero xs h = absurd (omega arith)
slice_take zero (suc n) (suc k) [] h = refl
slice_take zero (suc n) (suc k) (x ∷ xs) h =
    ap (λ (t : List ℕ). x ∷ t) (slice_take zero n k xs (omega arith))
slice_take (suc at) n zero xs h = absurd (omega arith)
slice_take (suc at) n (suc k) [] h = refl
slice_take (suc at) n (suc k) (x ∷ xs) h = slice_take at n k xs (omega arith)

-- What agrees on a range agrees within it.
pub agree_within :
    (off k at n : ℕ) (s t : List ℕ)
    → slice off k s ≡ slice off k t
    → at + n ≤ k
    → slice (off + at) n s ≡ slice (off + at) n t
agree_within off k at n s t h inside =
    ap (take n) (sym (drop-drop off at s))
    ∙ sym (slice_take at n k (drop off s) inside)
    ∙ ap (λ (x : List ℕ). take n (drop at x)) h
    ∙ slice_take at n k (drop off t) inside
    ∙ ap (take n) (drop-drop off at t)

-- The ranges beside the checksums have those of a primary and of a backup within them.
pub AgreeOn-beside_primary :
    (s t : List ℕ) → AgreeOn beside_checksums s t → AgreeOn beside_primary s t
AgreeOn-beside_primary s t h =
    let within = agree_within 20 68 in
    let middle = h.1.0 in
    (
      h.0,
      (
        within 0 12 s t middle (omega arith),
        (
          within 20 8 s t middle (omega arith),
          (within 36 32 s t middle (omega arith), (h.1.1.0, tt)),
        ),
      ),
    )

pub AgreeOn-beside_backup :
    (s t : List ℕ) → AgreeOn beside_checksums s t → AgreeOn beside_backup s t
AgreeOn-beside_backup s t h =
    let within = agree_within 20 68 in
    let middle = h.1.0 in
    (
      h.0,
      (
        within 0 4 s t middle (omega arith),
        (
          within 20 8 s t middle (omega arith),
          (
            within 36 16 s t middle (omega arith),
            (within 60 8 s t middle (omega arith), (h.1.1.0, tt)),
          ),
        ),
      ),
    )

module _ (hdr : List ℕ) (header_size : ℕ) (entries_raw : List ℕ) (long : length hdr ≡ 512) where
  with_crc : List ℕ
  with_crc = write_at 88 (le_bytes 4 (crc32 entries_raw)) hdr

  zeroed : List ℕ
  zeroed = write_at 16 (replicate 4 0) with_crc

  length-with_crc : length with_crc ≡ 512
  unfolding with_crc
  length-with_crc =
      length-write_at 88 (le_bytes 4 (crc32 entries_raw)) hdr
        (omega (arith, length-le_bytes 4 (crc32 entries_raw)))
      ∙ long

  length-zeroed : length zeroed ≡ 512
  unfolding zeroed
  length-zeroed =
      length-write_at 16 (replicate 4 0) with_crc (omega (arith, length-with_crc)) ∙ length-with_crc

  header_crc : List ℕ
  header_crc = le_bytes 4 (crc32 (take header_size zeroed))

  sealed : seal_header hdr header_size entries_raw ≡ write_at 16 header_crc zeroed
  unfolding seal_header header_crc zeroed with_crc
  sealed = refl

  fits : 16 + length header_crc ≤ length zeroed
  unfolding header_crc
  fits = omega (arith, length-zeroed, length-le_bytes 4 (crc32 (take header_size zeroed)))

  pub length-seal_header : length (seal_header hdr header_size entries_raw) ≡ 512
  length-seal_header = ap length sealed ∙ length-write_at 16 header_crc zeroed fits ∙ length-zeroed

  -- Other fields than the checksums are kept.
  pub seal_header_keeps :
      (at n : ℕ)
      → IsBeside 16 4 at n
      → IsBeside 88 4 at n
      → slice at n (seal_header hdr header_size entries_raw) ≡ slice at n hdr
  unfolding zeroed with_crc header_crc
  seal_header_keeps at n beside h =
      let crc_fits = length-le_bytes 4 (crc32 entries_raw) in
      let crc_fits' = length-le_bytes 4 (crc32 (take header_size zeroed)) in
      let beside_entries : (at + n ≤ 88) ⊎ (88 + length (le_bytes 4 (crc32 entries_raw)) ≤ at) =
        elim h [ inl l ↦ inl l | inr l ↦ inr (omega arith) ] in
      let beside' : (at + n ≤ 16) ⊎ (16 + length header_crc ≤ at) = elim beside [
        | inl l ↦ inl l
        | inr l ↦ inr (omega arith)
      ] in
      ap (slice at n) sealed
      ∙ slice_apart-write_at 16 header_crc zeroed at n fits beside'
      ∙ slice_apart-write_at 16 (replicate 4 0) with_crc at n (omega (arith, length-with_crc))
          beside
      ∙ slice_apart-write_at 88 (le_bytes 4 (crc32 entries_raw)) hdr at n (omega arith)
          beside_entries

  pub seal_header-beside_checksums :
      AgreeOn beside_checksums (seal_header hdr header_size entries_raw) hdr
  seal_header-beside_checksums = (
    seal_header_keeps 0 16 (inl (omega arith)) (inl (omega arith)),
    (
      seal_header_keeps 20 68 (inr (omega arith)) (inl (omega arith)),
      (seal_header_keeps 92 420 (inr (omega arith)) (inr (omega arith)), tt),
    ),
  )

  -- The checksums that a sealed header carries hold for it.
  pub seal_header-ChecksumsHold :
      ChecksumsHold header_size entries_raw (seal_header hdr header_size entries_raw)
  unfolding zeroed with_crc header_crc
  seal_header-ChecksumsHold =
      let crc = le_bytes 4 (crc32 entries_raw) in
      let crc_long = length-le_bytes 4 (crc32 entries_raw) in
      let crc_long' = length-le_bytes 4 (crc32 (take header_size zeroed)) in
      let unsealed : write_at 16 (replicate 4 0) (write_at 16 header_crc zeroed) ≡ zeroed =
        write_at_twice 16 (replicate 4 0) header_crc zeroed (omega (arith, length-zeroed)) crc_long'
        ∙ write_at_twice 16 (replicate 4 0) (replicate 4 0) with_crc
            (omega (arith, length-with_crc)) refl in
      record {
        entries_crc =
            ap (slice 88 4) sealed
            ∙ slice_apart-write_at 16 header_crc zeroed 88 4 fits (inr (omega arith))
            ∙ slice_apart-write_at 16 (replicate 4 0) with_crc 88 4 (omega (arith, length-with_crc))
                (inr (omega arith))
            ∙ ap (λ (n : ℕ). slice 88 n with_crc) (sym crc_long)
            ∙ slice-write_at 88 crc hdr (omega arith);
        header_crc =
            ap (slice 16 4) sealed
            ∙ ap (λ (n : ℕ). slice 16 n (write_at 16 header_crc zeroed)) (sym crc_long')
            ∙ slice-write_at 16 header_crc zeroed fits
            ∙ ap (λ (z : List ℕ). le_bytes 4 (crc32 (take header_size z)))
                (sym unsealed ∙ sym (ap (write_at 16 (replicate 4 0)) sealed));
      }

  -- So a sealed header is read as the one that was sealed.
  pub header_of-seal_header :
      header_of (seal_header hdr header_size entries_raw)
      ≡ record (header_of hdr) { raw_sector = seal_header hdr header_size entries_raw }
  unfolding header_of
  header_of-seal_header =
      let behind : (at n : ℕ)
          → 20 ≤ at
          → at + n ≤ 88
          → of_le (slice at n (seal_header hdr header_size entries_raw)) ≡ of_le (slice at n hdr) =
        λ at n above below. ap of_le (seal_header_keeps at n (inr above) (inl below)) in
      let header_size' =
        ap of_le (seal_header_keeps 12 4 (inl (omega arith)) (inl (omega arith))) in
      let my_lba = behind 24 8 (omega arith) (omega arith) in
      let alternate_lba = behind 32 8 (omega arith) (omega arith) in
      let first_usable_lba = behind 40 8 (omega arith) (omega arith) in
      let last_usable_lba = behind 48 8 (omega arith) (omega arith) in
      let part_entry_lba = behind 72 8 (omega arith) (omega arith) in
      let num_entries = behind 80 4 (omega arith) (omega arith) in
      let entry_size = behind 84 4 (omega arith) (omega arith) in
      λ i. record {
        header_size = header_size' i;
        my_lba = my_lba i;
        alternate_lba = alternate_lba i;
        first_usable_lba = first_usable_lba i;
        last_usable_lba = last_usable_lba i;
        part_entry_lba = part_entry_lba i;
        num_entries = num_entries i;
        entry_size = entry_size i;
        raw_sector = seal_header hdr header_size entries_raw;
      }
