-- ===== src/Apply/Restores.antt =====
-- `write` against its reference: it skips the blocks whose hash is right, and the disk ends as if
-- every block had been written.
use goldboot.Base.{
  ℕ, zero, suc, ◌+◌, ◌&&◌, ◌≤◌, ◌≡◌, refl, sym, ap, ◌∙◌, ◌≢◌, ◌⊎◌, inl, inr, Bool, true, false,
  List, [], ◌∷◌, Option, some, length, take, drop, replicate, slice, map, arith, ltb, lt→ltb,
  bytes_eq→eq, Bool-cases, ok, write_at, pad_to, slice-write_at, length-write_at, drop-write_at,
  slice_before-write_at, write_at_same, length-replicate,
}
use native.Mathlib.Nat.{sub-zero}
use goldboot.Crates.{Crates}
use goldboot.Format.{ProtectedHeader, DigestTable, DigestTableEntry}
use goldboot.Handle.{ImageHandle}
use goldboot.Apply.Target.{Dest, truncate, extend, put, zero_hash, block_hash}
use goldboot.Apply.Ordinals.{OrdinalMap, build_cluster_ordinal_map}
use goldboot.Apply.Write.{
  Writing, Progress, tell, fetch_block, is_dirty, write_entry, write_entries, write,
}

-- An entry with the bytes of its block.
abbrev pub Block : Type 0
Block = DigestTableEntry × List ℕ

abbrev pub entry_of : Block → DigestTableEntry
entry_of (e, x) = e

-- The reference: every block is written, in order.
unfoldable pub write_blocks : List Block → List ℕ → List ℕ
write_blocks [] content = content
write_blocks ((e, x) ∷ rest) content = write_blocks rest (write_at e.block_offset x content)

-- The blocks lie in order from `from` on, a block size apart, and end within the disk.
abbrev pub Fits : ℕ → ℕ → ℕ → List Block → Type 0
Fits block_size size from [] = Unit
Fits block_size size from ((e, x) ∷ rest) =
    (from ≤ e.block_offset)
    × (length x ≤ block_size)
    × (e.block_offset + length x ≤ size)
    × Fits block_size size (e.block_offset + block_size) rest

-- The block is what the image stores for the entry, and the entry has its digest.
pub record IsStored (c : Crates) (p : ProtectedHeader) (m : OrdinalMap) (image : List ℕ) (b : Block)
    : Type 0 where
  pub fetched : fetch_block c p m image b.0 ≡ ok b.1
  pub hashed : c.sha256 b.1 ≡ b.0.digest
  pub nonzero : b.0.digest ≢ zero_hash

abbrev pub AreStored : Crates → ProtectedHeader → OrdinalMap → List ℕ → List Block → Type 0
AreStored c p m image [] = Unit
AreStored c p m image (b ∷ rest) = IsStored c p m image b × AreStored c p m image rest

-- No block already on the disk has an entry's digest without having its bytes.
abbrev pub NoCollision : Crates → ℕ → List ℕ → List Block → Type 0
NoCollision c block_size content [] = Unit
NoCollision c block_size content ((e, x) ∷ rest) =
    (c.sha256 (slice e.block_offset block_size content) ≡ e.digest
      → slice e.block_offset block_size content ≡ x)
    × NoCollision c block_size content rest

-- Every block stands in the contents of the disk.
abbrev pub Shows : List ℕ → List Block → Type 0
Shows content [] = Unit
Shows content ((e, x) ∷ rest) = (slice e.block_offset (length x) content ≡ x) × Shows content rest

-- A range that no block overlaps.
abbrev pub IsClear : ℕ → ℕ → List Block → Type 0
IsClear at n [] = Unit
IsClear at n ((e, x) ∷ rest) =
    ((at + n ≤ e.block_offset) ⊎ (e.block_offset + length x ≤ at)) × IsClear at n rest

module _ (c : Crates) (block_size : ℕ) where
  NoCollision-write_at :
      (off : ℕ) (x content : List ℕ) (from size : ℕ) (rest : List Block)
      → off + length x ≤ length content
      → off + length x ≤ from
      → Fits block_size size from rest
      → NoCollision c block_size content rest
      → NoCollision c block_size (write_at off x content) rest
  NoCollision-write_at off x content from size [] h k f v = tt
  NoCollision-write_at off x content from size ((e, y) ∷ rest) h k f v =
      let same = drop-write_at off x content h e.block_offset (omega arith) in
      (
        rw same v.0,
        NoCollision-write_at off x content (e.block_offset + block_size) size rest h (omega arith)
            f.3 v.1,
      )

-- A clean block holds the bytes of its entry.
clean_block :
    (c : Crates) (p : ProtectedHeader) (m : OrdinalMap) (image : List ℕ) (e : DigestTableEntry)
    (x : List ℕ) (d : Dest)
    → IsStored c p m image (e, x)
    → (c.sha256 (slice e.block_offset p.block_size d.content) ≡ e.digest
        → slice e.block_offset p.block_size d.content ≡ x)
    → is_dirty c p e d ≡ false
    → slice e.block_offset p.block_size d.content ≡ x
unfolding is_dirty
clean_block c p m image e x d s honest h =
    matched (ltb (length d.content) (e.block_offset + p.block_size) && ltb 0 p.block_size) refl
  where
    found : block_hash c p.block_size e.block_offset d ≡ e.digest
    found = bytes_eq→eq _ _ (ground arith)

    matched :
        (t : Bool)
        → (ltb (length d.content) (e.block_offset + p.block_size) && ltb 0 p.block_size) ≡ t
        → slice e.block_offset p.block_size d.content ≡ x
    matched true q = absurd (s.nonzero (sym (unfold block_hash in rw q at found)))
    matched false q = honest (unfold block_hash in rw q at found)

put_within :
    (off : ℕ) (x : List ℕ) (d : Dest)
    → off + length x ≤ length d.content
    → put off x d ≡ ok (record d { content = write_at off x d.content })
unfolding put
put_within off x d h = ground arith

take_again : (n : ℕ) (xs : List ℕ) → take (length (take n xs)) xs ≡ take n xs
take_again zero xs = refl
take_again (suc n) [] = refl
take_again (suc n) (x ∷ xs) = ap (λ (t : List ℕ). x ∷ t) (take_again n xs)

-- Bytes that a read of at least as many gives are there.
slice_exact :
    (off n : ℕ) (x content : List ℕ) → slice off n content ≡ x → slice off (length x) content ≡ x
slice_exact off n x content e =
    ap (λ (y : List ℕ). slice off (length y) content) (sym e) ∙ take_again n (drop off content) ∙ e

-- One entry: whatever its branch, the disk ends with the block written.
module _ (c : Crates) (p : ProtectedHeader) (m : OrdinalMap) (image : List ℕ) (i : ℕ)
    (e : DigestTableEntry) (x : List ℕ) (w : Writing) where
  -- What the callback is told of the entry.
  abbrev told : Bool → Progress
  told true = tell i (some true) (tell i Option.none w.progress)
  told false = tell i (some false) w.progress

  abbrev after : Writing
  after = record {
    dest = record { is_file = w.dest.is_file; content = write_at e.block_offset x w.dest.content };
    progress = told (is_dirty c p e w.dest);
  }

  write_entry-after :
      IsStored c p m image (e, x)
      → (c.sha256 (slice e.block_offset p.block_size w.dest.content) ≡ e.digest
          → slice e.block_offset p.block_size w.dest.content ≡ x)
      → e.block_offset + length x ≤ length w.dest.content
      → length x ≤ p.block_size
      → write_entry c p m image i e w ≡ ok after
  unfolding write_entry
  write_entry-after s honest h short = elim (Bool-cases (is_dirty c p e w.dest)) [
    | inl dirty ↦ rw (dirty, s.fetched, put_within e.block_offset x w.dest h) refl
    | inr clean ↦
        let block = clean_block c p m image e x w.dest s honest clean in
        let kept =
          write_at_same e.block_offset x w.dest.content h
            (slice_exact e.block_offset p.block_size x w.dest.content block) in
        rw (clean, kept) refl
  ]

-- The loop over the entries of the blocks: it succeeds, and the disk ends as the reference leaves it.
pub write_entries-write_blocks :
    (c : Crates) (p : ProtectedHeader) (m : OrdinalMap) (image : List ℕ) (bs : List Block)
    (i from : ℕ) (w : Writing)
    → AreStored c p m image bs
    → Fits p.block_size (length w.dest.content) from bs
    → NoCollision c p.block_size w.dest.content bs
    → (told : Progress) × (write_entries c p m image i (map entry_of bs) w
        ≡ ok (record {
          dest = record { is_file = w.dest.is_file; content = write_blocks bs w.dest.content };
          progress = told;
        }))
unfolding write_entries write_blocks
write_entries-write_blocks c p m image [] i from w s f v = (w.progress, refl)
write_entries-write_blocks c p m image ((e, x) ∷ bs) i from w s f v =
    let next = after c p m image i e x w in
    let grown = length-write_at e.block_offset x w.dest.content f.2 in
    let (told, rest) =
      write_entries-write_blocks c p m image bs (i + 1) (e.block_offset + p.block_size) next s.1
        (rw grown f.3)
        (NoCollision-write_at c p.block_size e.block_offset x w.dest.content
          (e.block_offset + p.block_size) (length w.dest.content) bs f.2 (omega arith) f.3 v.1) in
    (told, rw (write_entry-after c p m image i e x w s.0 v.0 f.2 f.1) rest)

-- Later blocks leave alone what stands before them.
write_blocks_before :
    (block_size size at n from : ℕ) (bs : List Block) (content : List ℕ)
    → length content ≡ size
    → at + n ≤ from
    → Fits block_size size from bs
    → slice at n (write_blocks bs content) ≡ slice at n content
unfolding write_blocks
write_blocks_before block_size size at n from [] content l h f = refl
write_blocks_before block_size size at n from ((e, x) ∷ bs) content l h f =
    let fits : e.block_offset + length x ≤ length content = omega (arith, f.2) in
    let grown = length-write_at e.block_offset x content fits in
    write_blocks_before block_size size at n (e.block_offset + block_size) bs
      (write_at e.block_offset x content) (grown ∙ l) (omega arith) f.3
    ∙ slice_before-write_at e.block_offset x content fits at n (omega arith)

-- The reference writes every block.
pub write_blocks-Shows :
    (block_size size from : ℕ) (bs : List Block) (content : List ℕ)
    → length content ≡ size
    → Fits block_size size from bs
    → Shows (write_blocks bs content) bs
unfolding write_blocks
write_blocks-Shows block_size size from [] content l f = tt
write_blocks-Shows block_size size from ((e, x) ∷ bs) content l f =
    let fits : e.block_offset + length x ≤ length content = omega (arith, f.2) in
    let grown = length-write_at e.block_offset x content fits in
    (
      write_blocks_before block_size size e.block_offset (length x) (e.block_offset + block_size) bs
            (write_at e.block_offset x content) (grown ∙ l) (omega (arith, f.1)) f.3
          ∙ slice-write_at e.block_offset x content fits,
      write_blocks-Shows block_size size (e.block_offset + block_size) bs
          (write_at e.block_offset x content) (grown ∙ l) f.3,
    )

length-write_blocks :
    (block_size size from : ℕ) (bs : List Block) (content : List ℕ)
    → length content ≡ size
    → Fits block_size size from bs
    → length (write_blocks bs content) ≡ size
unfolding write_blocks
length-write_blocks block_size size from [] content l f = l
length-write_blocks block_size size from ((e, x) ∷ bs) content l f =
    let fits : e.block_offset + length x ≤ length content = omega (arith, f.2) in
    length-write_blocks block_size size (e.block_offset + block_size) bs
      (write_at e.block_offset x content) (length-write_at e.block_offset x content fits ∙ l) f.3

-- It changes no other byte.
pub write_blocks-clear :
    (block_size size from at n : ℕ) (bs : List Block) (content : List ℕ)
    → length content ≡ size
    → Fits block_size size from bs
    → IsClear at n bs
    → slice at n (write_blocks bs content) ≡ slice at n content
unfolding write_blocks
write_blocks-clear block_size size from at n [] content l f k = refl
write_blocks-clear block_size size from at n ((e, x) ∷ bs) content l f k =
    let fits : e.block_offset + length x ≤ length content = omega (arith, f.2) in
    write_blocks-clear block_size size (e.block_offset + block_size) at n bs
      (write_at e.block_offset x content) (length-write_at e.block_offset x content fits ∙ l) f.3
      k.1
    ∙ elim k.0 [
      | inl before ↦ slice_before-write_at e.block_offset x content fits at n before
      | inr behind ↦ ap (take n) (drop-write_at e.block_offset x content fits at behind)
    ]

-- A regular file is emptied and filled with zeros before the first block.
blank :
    (size : ℕ) (is_file : Bool) (content : List ℕ)
    → is_file ≡ true
    → extend size (truncate (record { is_file = is_file; content = content }))
      ≡ record { is_file = true; content = replicate size 0 }
unfolding extend truncate pad_to
blank size false content h = cc
blank zero true content h = refl
blank (suc n) true content h = rw (sub-zero (suc n), lt→ltb 0 (suc n) (omega arith)) refl

module _ (c : Crates) (image : List ℕ) (h : ImageHandle) (d : Dest) (bs : List Block)
    (p : ProtectedHeader) (table : DigestTable) where
  -- Writing a loaded image to a regular file succeeds, and the file has the size of the header and holds
  -- each block in place, if the entries of the digest table are in the order of their offsets, a block
  -- size or more apart, and end within that size, if the cluster of every entry is read and decodes to a
  -- block with the entry's digest, which is not all zeros, and if no block of zeros has that digest but
  -- the block itself.
  pub write_restores :
      h.protected_header ≡ some p
      → h.digest_table ≡ some table
      → table.digest_table ≡ map entry_of bs
      → d.is_file ≡ true
      → AreStored c p (build_cluster_ordinal_map table.digest_table) image bs
      → Fits p.block_size h.primary_header.size 0 bs
      → NoCollision c p.block_size (replicate h.primary_header.size 0) bs
      → (w : Writing) × (write c image h d ≡ ok w)
        × (w.dest.content ≡ write_blocks bs (replicate h.primary_header.size 0))
        × (length w.dest.content ≡ h.primary_header.size)
        × Shows w.dest.content bs
  unfolding write
  write_restores hp ht he hf s f v =
      let size = h.primary_header.size in
      let start : Writing = record {
        dest = record { is_file = true; content = replicate size 0 };
        progress = [];
      } in
      let long = length-replicate {A = ℕ} size 0 in
      let m = build_cluster_ordinal_map table.digest_table in
      let (told, ran) = write_entries-write_blocks c p m image bs 0 0 start s (rw long f) v in
      (
        record {
          dest = record { is_file = true; content = write_blocks bs (replicate size 0) };
          progress = told;
        },
        rw (hp, ht, blank size d.is_file d.content hf, he) (rw he at ran),
        refl,
        length-write_blocks p.block_size size 0 bs (replicate size 0) long f,
        write_blocks-Shows p.block_size size 0 bs (replicate size 0) long f,
      )
