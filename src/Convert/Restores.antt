-- ===== src/Convert/Restores.antt =====
-- From a qcow2 disk to an image and back to a disk.
use goldboot.Base.{
  ap, drop_all, ℕ, ◌+◌, ◌*◌, ◌≤◌, ◌≡◌, ◌≢◌, refl, sym, ◌∙◌, subst, List, [], ◌∷◌, ◌++◌, length,
  length-append, map, arith, All, ok, bind-eq-ok, slice, drop, replicate, write_at, drop-write_at,
}
use goldboot.Crates.{Crates, AreLawful}
use goldboot.Format.{PrimaryHeader, ProtectedHeader}
use goldboot.Format.Write.{write_digest_table, write_directory}
use goldboot.Handle.{ImageHandle}
use goldboot.Apply.{OrdinalMap, fetch_block, zero_hash, build_cluster_ordinal_map, ordinals_from}
use goldboot.Apply.Order.{or_insert_known}
use goldboot.Apply.Restores.{Block, AreStored, NoCollision, Shows}
use goldboot.Qcow.{Qcow3, cluster_size, l2_entries_per_cluster, count_clusters}
use goldboot.Convert.{
  Draws, Conversion, convert_l1, initial_conversion, directory_of, complete, seal_section,
  finish_directory, finish, table_of,
}
use goldboot.Convert.Stored.{InFile, InFile→fetched, InFile-grow}
use goldboot.Convert.Represents.{IsStorable, CountsNonces, Represents}
use goldboot.Convert.Runs.{item_of, ok_eq, Ran}
use goldboot.Convert.Tables.{convert_l1-Ran}
use goldboot.Convert.Counted.{length-disk_blocks}
use goldboot.Convert.Blocks.{DiskBlock, disk_blocks}

-- What is asked of the blocks of a disk, a set `D` of byte strings: each can be stored, the hash tells
-- them apart, and no hash of them is all zeros.
pub record AreStorable (c : Crates) (p : ProtectedHeader) (D : List ℕ → Type 0) : Type 0 where
  pub storable : (x : List ℕ) → D x → IsStorable c p x
  pub distinct : (x y : List ℕ) → D x → D y → c.sha256 x ≡ c.sha256 y → x ≡ y
  pub nonzero : (x : List ℕ) → D x → c.sha256 x ≢ zero_hash

initial-Represents :
    (c : Crates) (p : ProtectedHeader) (D : List ℕ → Type 0) (base n : ℕ) (start : List ℕ)
    → base ≡ length start
    → p.cluster_count ≡ n
    → CountsNonces p.cluster_encryption p.nonce_table p.cluster_count
    → Represents c p D base n [] (initial_conversion start p)
unfolding build_cluster_ordinal_map ordinals_from initial_conversion
initial-Represents c p D base n start based counted nonces = record {
  listed = refl;
  positioned = refl;
  numbered = refl;
  budget = omega arith;
  nonces = nonces;
  extends = λ i m h. h;
  stored = tt;
  known = tt;
  taken = sym (ap (λ (k : ℕ). drop k start) based ∙ drop_all start);
  based = omega arith;
  begun = tt;
}

-- The loop of `from_qcow` on a disk whose blocks can be stored: it does not fail, and ends in a state
-- that represents those blocks, with no cluster left to count.
pub convert_l1_represents :
    (c : Crates) (p : ProtectedHeader) (D : List ℕ → Type 0) (source : List ℕ) (q : Qcow3)
    (items : List DiskBlock) (start : List ℕ)
    → AreLawful c
    → AreStorable c p D
    → disk_blocks c source q ≡ ok items
    → All (λ i. D i.1) items
    → p.cluster_count ≡ count_clusters source q
    → CountsNonces p.cluster_encryption p.nonce_table p.cluster_count
    → Ran c p D
        (length start)
        0
        []
        items
        (0 + cluster_size q.header * l2_entries_per_cluster q.header * length q.l1_table)
        (convert_l1 c p.cluster_compression p.cluster_encryption p.cluster_key source q q.l1_table
          (initial_conversion start p))
unfolding disk_blocks initial_conversion
convert_l1_represents c p D source q items start lawful can read known counted nonces =
    convert_l1-Ran c p D (length start) lawful can.storable can.distinct source q q.l1_table 0 0 []
      (initial_conversion start p) items refl
      (initial-Represents c p D (length start) (length items + 0) start refl
        (omega (arith, counted, length-disk_blocks c source q items read)) nonces)
      known read

-- What the end of the conversion leaves: the file of the loop, a tail, and a new primary header over
-- the old one.
pub finish-complete :
    (c : Crates) (key : List ℕ) (d : Draws) (primary : PrimaryHeader) (p : ProtectedHeader)
    (protected_size count : ℕ) (s : Conversion) (r : List ℕ × ImageHandle)
    → finish c key d primary p protected_size count s ≡ ok r
    → (table_bytes : List ℕ) × (directory_bytes : List ℕ) × (complete c primary p
          (directory_of d protected_size s table_bytes)
          (table_of count s)
          s
          table_bytes
          directory_bytes
        ≡ r)
unfolding finish finish_directory
finish-complete c key d primary p protected_size count s r e =
    let directory = directory_of d protected_size s in
    let table = table_of count s in
    let (table_bytes, sealed, e') =
      bind-eq-ok
        (seal_section c primary.encryption_type key d.digest_table_nonce (write_digest_table table))
        (λ b. finish_directory c key primary p (directory b) table s b) e in
    let (directory_bytes, sealed', made) =
      bind-eq-ok
        (seal_section c primary.encryption_type key primary.directory_nonce
          (write_directory (directory table_bytes)))
        (λ b. ok (complete c primary p (directory table_bytes) table s table_bytes b)) e' in
    (table_bytes, directory_bytes, ok_eq made)

-- A block keeps its cluster when the primary header is written over.
fetched_behind :
    (c : Crates) (p : ProtectedHeader) (m : OrdinalMap) (old tail new : List ℕ) (b : Block)
    (base : ℕ)
    → length new ≤ base
    → base ≤ length old
    → base ≤ b.0.cluster_offset
    → InFile c p m old b
    → fetch_block c p m (write_at 0 new (old ++ tail)) b.0 ≡ ok b.1
unfolding fetch_block
fetched_behind c p m old tail new b base short within behind at =
    let off = b.0.cluster_offset in
    let longer = length-append old tail in
    let same : drop off (write_at 0 new (old ++ tail)) ≡ drop off (old ++ tail) =
      drop-write_at 0 new (old ++ tail) (omega arith) off (omega arith) in
    let there =
      subst (λ n. InFile c p n (old ++ tail) b)
        (or_insert_known off (length m) at.index m at.numbered)
        (InFile-grow c p m old b tail off at) in
    rw same (InFile→fetched c p m (old ++ tail) b there)

-- The items of the disk stand in the contents.
abbrev pub ShowsDisk : List ℕ → List DiskBlock → Type 0
ShowsDisk content [] = Unit
ShowsDisk content ((off, x) ∷ rest) = (slice off (length x) content ≡ x) × ShowsDisk content rest

pub Shows→ShowsDisk :
    (content : List ℕ) (bs : List Block) → Shows content bs → ShowsDisk content (map item_of bs)
Shows→ShowsDisk content [] h = tt
Shows→ShowsDisk content ((e, x) ∷ bs) h = (h.0, Shows→ShowsDisk content bs h.1)

-- No range of zeros has the hash of a block without being it.
abbrev pub NoBlankCollision : Crates → (List ℕ → Type 0) → ℕ → ℕ → Type 0
NoBlankCollision c D block_size size =
    (off : ℕ) (x : List ℕ)
    → D x
    → c.sha256 (slice off block_size (replicate size 0)) ≡ c.sha256 x
    → slice off block_size (replicate size 0) ≡ x

module _ (c : Crates) (p : ProtectedHeader) (D : List ℕ → Type 0) (m : OrdinalMap)
    (file : List ℕ) where
  pub NoBlankCollision→NoCollision :
      (block_size size : ℕ) (bs : List Block)
      → NoBlankCollision c D block_size size
      → All (InFile c p m file) bs
      → All (λ b. D b.1) bs
      → NoCollision c block_size (replicate size 0) bs
  NoBlankCollision→NoCollision block_size size [] blank at known = tt
  NoBlankCollision→NoCollision block_size size ((e, x) ∷ bs) blank at known = (
    λ same. blank e.block_offset x known.0 (same ∙ sym at.0.hashed),
    NoBlankCollision→NoCollision block_size size bs blank at.1 known.1,
  )

  pub All→AreStored :
      (tail new : List ℕ) (base : ℕ) (bs : List Block)
      → AreStorable c p D
      → length new ≤ base
      → base ≤ length file
      → All (InFile c p m file) bs
      → All (λ b. D b.1) bs
      → All (λ b. base ≤ b.0.cluster_offset) bs
      → AreStored c p m (write_at 0 new (file ++ tail)) bs
  All→AreStored tail new base [] can short within at known behind = tt
  All→AreStored tail new base (b ∷ bs) can short within at known behind = (
    record {
      fetched = fetched_behind c p m file tail new b base short within behind.0 at.0;
      hashed = at.0.hashed;
      nonzero = λ e. can.nonzero b.1 known.0 (at.0.hashed ∙ e);
    },
    All→AreStored tail new base bs can short within at.1 known.1 behind.1,
  )
