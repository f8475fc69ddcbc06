-- ===== src/Gpt/Fixup/Sectors.antt =====
-- The sectors that `fixup_backup_gpt` patches: the protective MBR and the fields of the two headers.
use goldboot.Base.{
  ℕ, ◌+◌, ◌-◌, ◌^◌, ◌≤◌, ◌<◌, not, ◌||◌, List, [], ◌∷◌, length, drop, slice, min, ok, bytes_eq,
  write_at, length-write_at, slice-write_at, slice_apart-write_at, le_bytes, of_le, of_le-le_bytes,
  length-le_bytes, length-take, length-drop, ◌≡◌, refl, sym, ap, ◌∙◌, ◌⊎◌, inl, inr, arith,
  Bool-cases,
}
use goldboot.Apply.{Dest}
use goldboot.Gpt.Table.{header_of}
use goldboot.Gpt.Sealed.{AgreeOn, beside_primary, beside_backup}
use goldboot.Gpt.Found.{read_slice-within, put-within}
use goldboot.Gpt.Fixup.{fix_protective_mbr, primary_sector, backup_sector}

-- The protective MBR is changed in place, or left alone.
pub record IsPatched (d d' : Dest) : Type 0 where
  pub same_size : length d'.content ≡ length d.content
  pub kept : (at n : ℕ) → 512 ≤ at → slice at n d'.content ≡ slice at n d.content

pub fix_protective_mbr-IsPatched :
    (last : ℕ) (d : Dest)
    → 512 ≤ length d.content
    → (d' : Dest) × (fix_protective_mbr last d ≡ ok d') × IsPatched d d'
unfolding fix_protective_mbr
fix_protective_mbr-IsPatched last d room =
    let mbr = slice 0 512 d.content in
    let mbr_long : length mbr ≡ 512 =
      omega (arith, length-take 512 (drop 0 d.content), length-drop 0 d.content) in
    let count = le_bytes 4 (min last 0xFFFFFFFF) in
    let patched = write_at 458 count mbr in
    let count_long = length-le_bytes 4 (min last 0xFFFFFFFF) in
    let patched_long = length-write_at 458 count mbr (omega arith) in
    let within : 0 + length patched ≤ length d.content = omega arith in
    let unknown =
      not (bytes_eq (slice 510 1 mbr) (0x55 ∷ []))
      || not (bytes_eq (slice 511 1 mbr) (0xAA ∷ []))
      || not (bytes_eq (slice 450 1 mbr) (0xEE ∷ [])) in
    elim (Bool-cases unknown) [
      | inl q ↦ (
        d,
        rw (read_slice-within 0 512 d.content room, q) refl,
        record { same_size = refl; kept = λ at n h. refl },
      )
      | inr q ↦ (
        record d { content = write_at 0 patched d.content },
        rw (read_slice-within 0 512 d.content room, q) (put-within 0 patched d within),
        record {
          same_size = length-write_at 0 patched d.content within;
          kept = λ at n h. slice_apart-write_at 0 patched d.content at n within (inr (omega arith));
        },
      )
    ]

-- A field of a header sector that is written in place.
module _ (hdr : List ℕ) (long : length hdr ≡ 512) (off v : ℕ) (room : off + 8 ≤ 512) where
  field_fits : off + length (le_bytes 8 v) ≤ length hdr
  field_fits = omega (arith, length-le_bytes 8 v)

  length-field : length (write_at off (le_bytes 8 v) hdr) ≡ 512
  length-field = length-write_at off (le_bytes 8 v) hdr field_fits ∙ long

  field_beside :
      (at n : ℕ)
      → (at + n ≤ off) ⊎ (off + 8 ≤ at)
      → slice at n (write_at off (le_bytes 8 v) hdr) ≡ slice at n hdr
  field_beside at n h =
      slice_apart-write_at off (le_bytes 8 v) hdr at n field_fits
        (elim h [ inl l ↦ inl l | inr l ↦ inr (omega (arith, length-le_bytes 8 v)) ])

  field_there : v < 256 ^ 8 → of_le (slice off 8 (write_at off (le_bytes 8 v) hdr)) ≡ v
  field_there fits =
      ap (λ (n : ℕ). of_le (slice off n (write_at off (le_bytes 8 v) hdr)))
        (sym (length-le_bytes 8 v))
      ∙ ap of_le (slice-write_at off (le_bytes 8 v) hdr field_fits)
      ∙ of_le-le_bytes 8 v fits

module _ (last my : ℕ) (raw : List ℕ) (long : length raw ≡ 512) where
  pub length-primary_sector : length (primary_sector last raw) ≡ 512
  unfolding primary_sector
  length-primary_sector =
      length-field (write_at 32 (le_bytes 8 last) raw) (length-field raw long 32 last (omega arith))
        48 (last - 33) (omega arith)

  -- Beside the two fields nothing changes.
  primary_beside :
      (at n : ℕ)
      → (at + n ≤ 32) ⊎ (40 ≤ at)
      → (at + n ≤ 48) ⊎ (56 ≤ at)
      → slice at n (primary_sector last raw) ≡ slice at n raw
  unfolding primary_sector
  primary_beside at n h h' =
      field_beside (write_at 32 (le_bytes 8 last) raw) (length-field raw long 32 last (omega arith))
        48 (last - 33) (omega arith) at n h'
      ∙ field_beside raw long 32 last (omega arith) at n h

  pub primary_sector-beside_primary : AgreeOn beside_primary (primary_sector last raw) raw
  primary_sector-beside_primary = (
    primary_beside 0 16 (inl (omega arith)) (inl (omega arith)),
    (
      primary_beside 20 12 (inl (omega arith)) (inl (omega arith)),
      (
        primary_beside 40 8 (inr (omega arith)) (inl (omega arith)),
        (
          primary_beside 56 32 (inr (omega arith)) (inr (omega arith)),
          (primary_beside 92 420 (inr (omega arith)) (inr (omega arith)), tt),
        ),
      ),
    ),
  )

  pub primary_signed : slice 0 8 (primary_sector last raw) ≡ slice 0 8 raw
  primary_signed = primary_beside 0 8 (inl (omega arith)) (inl (omega arith))

  pub header_of-primary_sector :
      last < 256 ^ 8
      → header_of (primary_sector last raw) ≡ record (header_of raw) {
        alternate_lba = last;
        last_usable_lba = last - 33;
        raw_sector = primary_sector last raw;
      }
  unfolding header_of primary_sector
  header_of-primary_sector fits =
      let first = write_at 32 (le_bytes 8 last) raw in
      let first_long = length-field raw long 32 last (omega arith) in
      let before : (at n : ℕ)
          → at + n ≤ 32
          → of_le (slice at n (primary_sector last raw)) ≡ of_le (slice at n raw) =
        λ at n h. ap of_le (primary_beside at n (inl h) (inl (omega arith))) in
      let after : (at n : ℕ)
          → 56 ≤ at
          → of_le (slice at n (primary_sector last raw)) ≡ of_le (slice at n raw) =
        λ at n h. ap of_le (primary_beside at n (inr (omega arith)) (inr h)) in
      let header_size = before 12 4 (omega arith) in
      let my_lba = before 24 8 (omega arith) in
      let alternate_lba : of_le (slice 32 8 (primary_sector last raw)) ≡ last =
        ap of_le
          (field_beside first first_long 48 (last - 33) (omega arith) 32 8 (inl (omega arith)))
        ∙ field_there raw long 32 last (omega arith) fits in
      let first_usable_lba =
        ap of_le (primary_beside 40 8 (inr (omega arith)) (inl (omega arith))) in
      let last_usable_lba =
        field_there first first_long 48 (last - 33) (omega arith) (omega arith) in
      let part_entry_lba = after 72 8 (omega arith) in
      let num_entries = after 80 4 (omega arith) in
      let entry_size = after 84 4 (omega arith) in
      λ i. record {
        header_size = header_size i;
        my_lba = my_lba i;
        alternate_lba = alternate_lba i;
        first_usable_lba = first_usable_lba i;
        last_usable_lba = last_usable_lba i;
        part_entry_lba = part_entry_lba i;
        num_entries = num_entries i;
        entry_size = entry_size i;
        raw_sector = primary_sector last raw;
      }

  -- The four fields of the backup, one after the other.
  b1 : List ℕ
  b1 = write_at 24 (le_bytes 8 last) raw

  b2 : List ℕ
  b2 = write_at 32 (le_bytes 8 my) b1

  b3 : List ℕ
  b3 = write_at 48 (le_bytes 8 (last - 33)) b2

  length-b1 : length b1 ≡ 512
  unfolding b1
  length-b1 = length-field raw long 24 last (omega arith)

  length-b2 : length b2 ≡ 512
  unfolding b2
  length-b2 = length-field b1 length-b1 32 my (omega arith)

  length-b3 : length b3 ≡ 512
  unfolding b3
  length-b3 = length-field b2 length-b2 48 (last - 33) (omega arith)

  backup_is : backup_sector last my raw ≡ write_at 72 (le_bytes 8 (last - 32)) b3
  unfolding backup_sector b1 b2 b3
  backup_is = refl

  pub length-backup_sector : length (backup_sector last my raw) ≡ 512
  length-backup_sector =
      ap length backup_is ∙ length-field b3 length-b3 72 (last - 32) (omega arith)

  b3-b2 : (at n : ℕ) → (at + n ≤ 48) ⊎ (56 ≤ at) → slice at n b3 ≡ slice at n b2
  unfolding b3
  b3-b2 at n h = field_beside b2 length-b2 48 (last - 33) (omega arith) at n h

  b2-raw : (at n : ℕ) → (at + n ≤ 24) ⊎ (40 ≤ at) → slice at n b2 ≡ slice at n raw
  unfolding b2 b1
  b2-raw at n h =
      let beside : (at + n ≤ 32) ⊎ (40 ≤ at) = elim h [
        | inl l ↦ inl (omega arith)
        | inr l ↦ inr l
      ] in
      let beside' : (at + n ≤ 24) ⊎ (32 ≤ at) = elim h [
        | inl l ↦ inl l
        | inr l ↦ inr (omega arith)
      ] in
      field_beside b1 length-b1 32 my (omega arith) at n beside
      ∙ field_beside raw long 24 last (omega arith) at n beside'

  -- Beside the four fields nothing changes.
  backup_beside :
      (at n : ℕ)
      → (at + n ≤ 24) ⊎ (40 ≤ at)
      → (at + n ≤ 48) ⊎ (56 ≤ at)
      → (at + n ≤ 72) ⊎ (80 ≤ at)
      → slice at n (backup_sector last my raw) ≡ slice at n raw
  backup_beside at n h h' h'' =
      ap (slice at n) backup_is
      ∙ field_beside b3 length-b3 72 (last - 32) (omega arith) at n h''
      ∙ b3-b2 at n h'
      ∙ b2-raw at n h

  pub backup_sector-beside_backup : AgreeOn beside_backup (backup_sector last my raw) raw
  backup_sector-beside_backup = (
    backup_beside 0 16 (inl (omega arith)) (inl (omega arith)) (inl (omega arith)),
    (
      backup_beside 20 4 (inl (omega arith)) (inl (omega arith)) (inl (omega arith)),
      (
        backup_beside 40 8 (inr (omega arith)) (inl (omega arith)) (inl (omega arith)),
        (
          backup_beside 56 16 (inr (omega arith)) (inr (omega arith)) (inl (omega arith)),
          (
            backup_beside 80 8 (inr (omega arith)) (inr (omega arith)) (inr (omega arith)),
            (backup_beside 92 420 (inr (omega arith)) (inr (omega arith)) (inr (omega arith)), tt),
          ),
        ),
      ),
    ),
  )

  backup-b3 :
      (at n : ℕ)
      → (at + n ≤ 72) ⊎ (80 ≤ at)
      → of_le (slice at n (backup_sector last my raw)) ≡ of_le (slice at n b3)
  backup-b3 at n h =
      ap (λ (t : List ℕ). of_le (slice at n t)) backup_is
      ∙ ap of_le (field_beside b3 length-b3 72 (last - 32) (omega arith) at n h)

  pub header_of-backup_sector :
      last < 256 ^ 8
      → my < 256 ^ 8
      → header_of (backup_sector last my raw) ≡ record (header_of raw) {
        my_lba = last;
        alternate_lba = my;
        last_usable_lba = last - 33;
        part_entry_lba = last - 32;
        raw_sector = backup_sector last my raw;
      }
  unfolding header_of b1 b2 b3
  header_of-backup_sector fits fits' =
      let header_size =
        backup-b3 12 4 (inl (omega arith))
        ∙ ap of_le (b3-b2 12 4 (inl (omega arith)) ∙ b2-raw 12 4 (inl (omega arith))) in
      let my_lba =
        backup-b3 24 8 (inl (omega arith))
        ∙ ap of_le (
            b3-b2 24 8 (inl (omega arith))
            ∙ field_beside b1 length-b1 32 my (omega arith) 24 8 (inl (omega arith)))
        ∙ field_there raw long 24 last (omega arith) fits in
      let alternate_lba =
        backup-b3 32 8 (inl (omega arith))
        ∙ ap of_le (b3-b2 32 8 (inl (omega arith)))
        ∙ field_there b1 length-b1 32 my (omega arith) fits' in
      let first_usable_lba =
        backup-b3 40 8 (inl (omega arith))
        ∙ ap of_le (b3-b2 40 8 (inl (omega arith)) ∙ b2-raw 40 8 (inr (omega arith))) in
      let last_usable_lba =
        backup-b3 48 8 (inl (omega arith))
        ∙ field_there b2 length-b2 48 (last - 33) (omega arith) (omega arith) in
      let part_entry_lba =
        ap (λ (t : List ℕ). of_le (slice 72 8 t)) backup_is
        ∙ field_there b3 length-b3 72 (last - 32) (omega arith) (omega arith) in
      let num_entries =
        backup-b3 80 4 (inr (omega arith))
        ∙ ap of_le (b3-b2 80 4 (inr (omega arith)) ∙ b2-raw 80 4 (inr (omega arith))) in
      let entry_size =
        backup-b3 84 4 (inr (omega arith))
        ∙ ap of_le (b3-b2 84 4 (inr (omega arith)) ∙ b2-raw 84 4 (inr (omega arith))) in
      λ i. record {
        header_size = header_size i;
        my_lba = my_lba i;
        alternate_lba = alternate_lba i;
        first_usable_lba = first_usable_lba i;
        last_usable_lba = last_usable_lba i;
        part_entry_lba = part_entry_lba i;
        num_entries = num_entries i;
        entry_size = entry_size i;
        raw_sector = backup_sector last my raw;
      }
