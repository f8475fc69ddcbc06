-- ===== src/Gpt/Write/Refused.antt =====
-- What `write_gpt` refuses.
use goldboot.Base.{
  ℕ, ◌-◌, ◌/◌, ◌≤◌, List, [], ◌∷◌, length, ltb, ok, bind-eq-ok, All, ◌≡◌, arith, inl, inr,
  Bool-cases,
}
use goldboot.Apply.{Dest}
use goldboot.Gpt.Entry.{Uuid, PartitionEntry}
use goldboot.Gpt.Write.{disk_last_lba, check_ranges, write_gpt}
use goldboot.Gpt.Write.Headers.{InRange}

ranges_checked :
    (first last : ℕ) (es : List PartitionEntry)
    → check_ranges first last es ≡ ok tt
    → All (InRange first last) es
unfolding check_ranges
ranges_checked first last [] h = tt
ranges_checked first last (e ∷ es) h = elim (Bool-cases (ltb e.first_lba first)) [
  | inl q ↦ let refused = rw q at h in cc
  | inr q ↦ elim (Bool-cases (ltb last e.last_lba)) [
    | inl q' ↦ let refused = rw (q, q') at h in cc
    | inr q' ↦ ((ground arith, ground arith), ranges_checked first last es (rw (q, q') at h))
  ]
]

-- Both ends of an entry within a range.
abbrev pub Within : ℕ → ℕ → PartitionEntry → Type 0
Within first last e =
    (first ≤ e.first_lba) × (e.first_lba ≤ last) × (first ≤ e.last_lba) × (e.last_lba ≤ last)

ordered-Within :
    (first last : ℕ) (es : List PartitionEntry)
    → All (λ e. e.first_lba ≤ e.last_lba) es
    → All (InRange first last) es
    → All (Within first last) es
ordered-Within first last [] o h = tt
ordered-Within first last (e ∷ es) o h = (
  (h.0.0, omega (arith, o.0, h.0.1), omega (arith, o.0, h.0.0), h.0.1),
  ordered-Within first last es o.1 h.1,
)

-- A table of entries that do not end before they start, and that `write_gpt` has written, has at most
-- 128 entries, each of which starts and ends within the usable sectors, from 34 to the 33rd before the
-- last, and the disk has 34 sectors at least.
pub write_gpt-Within :
    (disk_guid : Uuid) (disk_size : ℕ) (es : List PartitionEntry) (d after : Dest)
    → All (λ e. e.first_lba ≤ e.last_lba) es
    → write_gpt disk_guid disk_size es d ≡ ok after
    → (34 ≤ disk_size / 512) × (length es ≤ 128) × All (Within 34 (disk_last_lba disk_size - 33)) es
unfolding write_gpt
write_gpt-Within disk_guid disk_size es d after ordered h =
    elim (Bool-cases (ltb (disk_size / 512) 34)) [
      | inl q ↦ let refused = rw q at h in cc
      | inr q ↦ elim (Bool-cases (ltb 128 (length es))) [
        | inl q' ↦ let refused = rw (q, q') at h in cc
        | inr q' ↦
            let passed = rw (q, q') at h in
            let sub_sub : disk_last_lba disk_size - 1 - 32 ≡ disk_last_lba disk_size - 33 =
              omega arith in
            let checked =
              bind-eq-ok (check_ranges 34 (disk_last_lba disk_size - 1 - 32) es) _ passed in
            (
              ground arith,
              ground arith,
              ordered-Within 34 (disk_last_lba disk_size - 33) es ordered (
                  rw sub_sub at
                    (ranges_checked 34 (disk_last_lba disk_size - 1 - 32) es checked.1)),
            )
      ]
    ]
