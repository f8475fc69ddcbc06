-- ===== src/Apply/Verified.antt =====
-- What `verify` tells of a disk that was just written, and of a block cut off by the disk's end.
use goldboot.Base.{
  ℕ, ◌+◌, ◌&&◌, ◌≤◌, ◌<◌, ◌≡◌, refl, sym, ap, ◌∙◌, ◌≢◌, true, false, List, [], ◌∷◌, ◌++◌, none,
  some, length, map, slice, arith, ltb, bytes_eq, bytes_eq→eq, bytes_eq_refl, Bool-cases, inl, inr,
  ok,
}
use native.Mathlib.Nat.{zero-add, add-zero}
use goldboot.Crates.{Crates}
use goldboot.Format.{ProtectedHeader, DigestTable, DigestTableEntry}
use goldboot.Handle.{ImageHandle}
use goldboot.Apply.Target.{Dest, zero_hash, block_hash}
use goldboot.Apply.Write.{Progress, tell}
use goldboot.Apply.Verify.{matches, verify_entries, verify}
use goldboot.Apply.Restores.{Block, entry_of, Fits, Shows}

-- Every entry announced and then confirmed.
unfoldable pub all_confirmed : ℕ → List DigestTableEntry → Progress → Progress
all_confirmed i [] told = told
all_confirmed i (e ∷ es) told = all_confirmed (i + 1) es (tell i (some true) (tell i none told))

-- Whole blocks, with their digests.
abbrev pub AreWhole : Crates → ℕ → List Block → Type 0
AreWhole c block_size [] = Unit
AreWhole c block_size ((e, x) ∷ rest) =
    (length x ≡ block_size) × (c.sha256 x ≡ e.digest) × AreWhole c block_size rest

matches_shown :
    (c : Crates) (p : ProtectedHeader) (e : DigestTableEntry) (x : List ℕ) (d : Dest)
    → length x ≡ p.block_size
    → c.sha256 x ≡ e.digest
    → e.block_offset + length x ≤ length d.content
    → slice e.block_offset (length x) d.content ≡ x
    → matches c p e d ≡ true
unfolding matches block_hash
matches_shown c p e x d whole hashed fits shown =
    let inside : (ltb (length d.content) (e.block_offset + p.block_size) && ltb 0 p.block_size)
        ≡ false =
      ground arith in
    let same : slice e.block_offset p.block_size d.content ≡ x =
      ap (λ n. slice e.block_offset n d.content) (sym whole) ∙ shown in
    rw (inside, same, hashed) (bytes_eq_refl e.digest)

verify_entries-confirmed :
    (c : Crates) (p : ProtectedHeader) (d : Dest) (bs : List Block) (i from : ℕ) (told : Progress)
    → AreWhole c p.block_size bs
    → Fits p.block_size (length d.content) from bs
    → Shows d.content bs
    → verify_entries c p i (map entry_of bs) d told ≡ all_confirmed i (map entry_of bs) told
unfolding verify_entries all_confirmed
verify_entries-confirmed c p d [] i from told w f s = refl
verify_entries-confirmed c p d ((e, x) ∷ bs) i from told w f s =
    ap (λ b. verify_entries c p (i + 1) (map entry_of bs) d (tell i (some b) (tell i none told)))
      (matches_shown c p e x d w.0 w.1 f.2 s.0)
    ∙ verify_entries-confirmed c p d bs (i + 1) (e.block_offset + p.block_size)
        (tell i (some true) (tell i none told)) w.2 f.3 s.1

-- On a disk that shows every block of an image with whole blocks, `verify` confirms every entry.
pub verify_confirms :
    (c : Crates) (h : ImageHandle) (d : Dest) (bs : List Block) (p : ProtectedHeader)
    (table : DigestTable)
    → h.protected_header ≡ some p
    → h.digest_table ≡ some table
    → table.digest_table ≡ map entry_of bs
    → AreWhole c p.block_size bs
    → Fits p.block_size (length d.content) 0 bs
    → Shows d.content bs
    → verify c h d ≡ ok (all_confirmed 0 table.digest_table [])
unfolding verify
verify_confirms c h d bs p table hp ht he w f s =
    rw (hp, ht, he) (ap ok (verify_entries-confirmed c p d bs 0 0 [] w f s))

matches_cut :
    (c : Crates) (p : ProtectedHeader) (e : DigestTableEntry) (d : Dest)
    → e.digest ≢ zero_hash
    → 0 < p.block_size
    → length d.content < e.block_offset + p.block_size
    → matches c p e d ≡ false
unfolding matches block_hash
matches_cut c p e d nonzero some_size cut =
    let outside : (ltb (length d.content) (e.block_offset + p.block_size) && ltb 0 p.block_size)
        ≡ true =
      ground arith in
    elim (Bool-cases (bytes_eq zero_hash e.digest)) [
      | inl same ↦ absurd (nonzero (sym (bytes_eq→eq zero_hash e.digest same)))
      | inr differ ↦ rw outside differ
    ]

verify_entries-last :
    (c : Crates) (p : ProtectedHeader) (d : Dest) (es : List DigestTableEntry)
    (e : DigestTableEntry) (i : ℕ) (told : Progress)
    → matches c p e d ≡ false
    → (before : Progress) × (verify_entries c p i (es ++ e ∷ []) d told
        ≡ tell (i + length es) (some false) before)
unfolding verify_entries
verify_entries-last c p d [] e i told h = (tell i none told, rw (h, add-zero i) refl)
verify_entries-last c p d (x ∷ es) e i told h =
    let (before, last) =
      verify_entries-last c p d es e (i + 1) (tell i (some (matches c p x d)) (tell i none told))
        h in
    let place : i + 1 + length es ≡ i + length (x ∷ es) = omega arith in
    (before, last ∙ ap (λ n. tell n (some false) before) place)

-- Where the disk ends inside the block of the last entry, `verify` reports that block as corrupt,
-- whatever the disk holds, if the entry's digest is not all zeros and the block size is not 0.
pub verify_rejects_cut_block :
    (c : Crates) (h : ImageHandle) (d : Dest) (es : List DigestTableEntry) (e : DigestTableEntry)
    (p : ProtectedHeader) (table : DigestTable)
    → h.protected_header ≡ some p
    → h.digest_table ≡ some table
    → table.digest_table ≡ es ++ e ∷ []
    → e.digest ≢ zero_hash
    → 0 < p.block_size
    → length d.content < e.block_offset + p.block_size
    → (before : Progress) × (verify c h d ≡ ok (tell (length es) (some false) before))
unfolding verify
verify_rejects_cut_block c h d es e p table hp ht he nonzero some_size cut =
    let (before, last) =
      verify_entries-last c p d es e 0 [] (matches_cut c p e d nonzero some_size cut) in
    (
      before,
      rw (hp, ht, he) (ap ok (last ∙ ap (λ n. tell n (some false) before) (zero-add (length es)))),
    )
