-- ===== src/Convert/Steps.antt =====
-- One block: a new cluster, or a shared one. Neither panics, and the state goes on to represent the
-- blocks taken.
use goldboot.Base.{
  drop, drop_front, ℕ, zero, suc, ◌+◌, ◌-◌, ◌%◌, ◌^◌, ◌≤◌, ◌<◌, ◌≡◌, refl, sym, ap, ◌∙◌, subst,
  false, List, [], ◌∷◌, ◌++◌, append-nil, none, some, length, length-append, map, arith, All,
  All-append, Result, ok, ◌==◌, be_bytes, length-be_bytes,
}
use goldboot.Crates.{Crates, AreLawful}
use goldboot.Format.{ProtectedHeader, DigestTableEntry, Cluster, ClusterEncryptionType}
use goldboot.Format.Write.{write_cluster}
use goldboot.Apply.{ordinal, or_insert, build_cluster_ordinal_map}
use goldboot.Apply.Order.{ordinals_from-fresh, or_insert_new, or_insert_known, ordinal_new}
use goldboot.Apply.Restores.{Block, entry_of}
use goldboot.Convert.{
  Conversion, compress, encrypt_cluster, pop, record_cluster, record_share, store_cluster,
  share_cluster,
}
use goldboot.Convert.Stored.{Extends, InFile, decode-seal}
use goldboot.Convert.Represents.{
  HasNonce, CountsNonces, IsStorable, map_of, Represents, map_snoc, map_of-snoc, All-grow,
  All-within,
}

CountsNonces→HasNonce :
    (kind : ClusterEncryptionType) (nonces : List (List ℕ)) (n i : ℕ)
    → CountsNonces kind nonces n
    → i < n
    → HasNonce kind nonces i
CountsNonces→HasNonce ClusterEncryptionType.none nonces n i h l = tt
CountsNonces→HasNonce ClusterEncryptionType.aes256 nonces n i h l = omega arith

abbrev pub cluster_of : List ℕ → Cluster
cluster_of sealed = record { size = length sealed % 2 ^ 32; bytes = sealed }

-- The entry that a new cluster gets, and the one of a shared cluster.
abbrev pub entry_at : Conversion → ℕ → List ℕ → DigestTableEntry
entry_at s offset digest = record {
  cluster_offset = offset;
  block_offset = s.block_offset;
  digest = digest;
}

module _ (c : Crates) (p : ProtectedHeader) (D : List ℕ → Type 0) (base : ℕ) (lawful : AreLawful c)
    (remaining : ℕ) (bs : List Block) (s : Conversion) where
  length-write_cluster : (k : Cluster) → length (write_cluster k) ≡ 4 + length k.bytes
  unfolding write_cluster
  length-write_cluster k =
      omega (arith, length-append (be_bytes 4 k.size) k.bytes, length-be_bytes 4 k.size)

  -- What is hashed of a new cluster is what is written of it.
  hashed_cluster :
      (k : Cluster)
      → base ≤ length s.file
      → drop base (s.file ++ write_cluster k) ≡ drop base s.file ++ (be_bytes 4 k.size ++ k.bytes)
  unfolding write_cluster
  hashed_cluster k h = drop_front base s.file (be_bytes 4 k.size ++ k.bytes) h

  fresh : Represents c p D base (suc remaining) bs s → ordinal s.cluster_offset (map_of bs) ≡ none
  unfolding build_cluster_ordinal_map ordinal
  fresh r = rw (r.positioned) (
      ordinals_from-fresh (length s.file) [] (map entry_of bs) refl
        (All-within c p (map_of bs) s.file bs r.stored))

  module _ (r : Represents c p D base (suc remaining) bs s) (plain packed sealed : List ℕ)
      (packs : compress c p.cluster_compression plain ≡ ok packed)
      (seals : encrypt_cluster c p.cluster_encryption p.cluster_key s.nonce_table s.ordinal packed
        ≡ ok sealed)
      (short : length sealed < 2 ^ 32) where
    -- The new cluster is in the file.
    stored_new :
        InFile c p
          (or_insert s.cluster_offset (length (map_of bs)) (map_of bs))
          (s.file ++ write_cluster (cluster_of sealed))
          (entry_at s s.cluster_offset (c.sha256 plain), plain)
    stored_new = record {
      front = s.file;
      cluster = cluster_of sealed;
      back = [];
      index = s.ordinal;
      laid =
          ap (λ (f : List ℕ). s.file ++ f) (sym (append-nil (write_cluster (cluster_of sealed))));
      placed = r.positioned;
      valid = record { size_fits = omega arith; counted = omega arith };
      numbered =
          rw (or_insert_new s.cluster_offset (map_of bs) (fresh r), r.numbered)
            (ordinal_new s.cluster_offset (map_of bs) (fresh r));
      decoded =
          decode-seal c p s.nonce_table s.ordinal plain packed sealed lawful r.extends packs seals;
      hashed = refl;
    }

    record_cluster-Represents :
        D plain
        → Represents c p D base remaining
            (bs ++ (entry_at s s.cluster_offset (c.sha256 plain), plain) ∷ [])
            (record_cluster s (c.sha256 plain) sealed)
    unfolding record_cluster
    record_cluster-Represents known =
        let b : Block = (entry_at s s.cluster_offset (c.sha256 plain), plain) in
        let more = write_cluster (cluster_of sealed) in
        let m = or_insert s.cluster_offset (length (map_of bs)) (map_of bs) in
        let all : All (InFile c p m (s.file ++ more)) (bs ++ b ∷ []) =
          All-append (InFile c p m (s.file ++ more)) bs (b ∷ [])
            (All-grow c p (map_of bs) s.file more s.cluster_offset bs r.stored) (stored_new, tt) in
        record {
          listed = rw (map_snoc bs b, r.listed) refl;
          positioned = omega (
            arith,
            r.positioned,
            length-append s.file more,
            length-write_cluster (cluster_of sealed),
          );
          numbered = omega (
            arith,
            r.numbered,
            ap length (map_of-snoc bs b ∙ or_insert_new s.cluster_offset (map_of bs) (fresh r)),
            length-append (map_of bs) ((s.cluster_offset, length (map_of bs)) ∷ []),
          );
          budget = omega (arith, r.budget);
          nonces = r.nonces;
          extends = r.extends;
          stored =
              subst (λ n. All (InFile c p n (s.file ++ more)) (bs ++ b ∷ []))
                (sym (map_of-snoc bs b)) all;
          known = All-append (λ (x : Block). D x.1) bs (b ∷ []) r.known (known, tt);
          taken = rw (r.taken) (sym (hashed_cluster (cluster_of sealed) r.based));
          based = omega (arith, r.based, length-append s.file more);
          begun =
              All-append (λ (x : Block). base ≤ x.0.cluster_offset) bs (b ∷ []) r.begun
                (omega (arith, r.based, r.positioned), tt);
        }

length-pop : (xs : List (List ℕ)) → length (pop xs) ≡ length xs - 1
unfolding pop
length-pop [] = refl
length-pop (x ∷ []) = refl
length-pop (x ∷ y ∷ ys) = omega (arith, length-pop (y ∷ ys))

pop-Extends : (xs : List (List ℕ)) → Extends (pop xs) xs
unfolding pop
pop-Extends [] i n h = h
pop-Extends (x ∷ []) i n h = cc
pop-Extends (x ∷ y ∷ ys) zero n h = h
pop-Extends (x ∷ y ∷ ys) (suc i) n h = pop-Extends (y ∷ ys) i n h

pop-CountsNonces :
    (kind : ClusterEncryptionType) (nonces : List (List ℕ)) (n : ℕ)
    → CountsNonces kind nonces n
    → CountsNonces kind (pop nonces) (n - 1)
pop-CountsNonces ClusterEncryptionType.none nonces n h = tt
pop-CountsNonces ClusterEncryptionType.aes256 nonces n h = omega (arith, length-pop nonces)

-- A step that succeeds, with the entry it pushed.
pub record Takes (c : Crates) (p : ProtectedHeader) (D : List ℕ → Type 0) (base : ℕ) (remaining : ℕ)
    (bs : List Block) (s : Conversion) (plain : List ℕ) (result : Result Conversion) : Type 0 where
  pub state : Conversion
  pub entry : DigestTableEntry
  pub runs : result ≡ ok state
  pub placed : entry.block_offset ≡ s.block_offset
  pub still : state.block_offset ≡ s.block_offset
  pub represents : Represents c p D base remaining (bs ++ (entry, plain) ∷ []) state

module _ (c : Crates) (p : ProtectedHeader) (D : List ℕ → Type 0) (base : ℕ) (lawful : AreLawful c)
    (remaining : ℕ) (bs : List Block) (s : Conversion)
    (r : Represents c p D base (suc remaining) bs s) (plain : List ℕ) (known : D plain) where
  pub store_cluster-Takes :
      IsStorable c p plain
      → Takes c p D base remaining bs s plain (
          store_cluster c p.cluster_compression p.cluster_encryption p.cluster_key s
            (c.sha256 plain)
            plain)
  unfolding store_cluster record_cluster
  store_cluster-Takes storable =
      let budget = r.budget in
      let (sealed, seals, short) = storable.seals s.nonce_table s.ordinal (
        CountsNonces→HasNonce p.cluster_encryption s.nonce_table s.cluster_count s.ordinal r.nonces
          (omega arith)) in
      record {
        state = record_cluster s (c.sha256 plain) sealed;
        entry = entry_at s s.cluster_offset (c.sha256 plain);
        runs = rw (storable.packs, seals) refl;
        placed = refl;
        still = refl;
        represents =
            record_cluster-Represents c p D base lawful remaining bs s r plain storable.packed
              sealed storable.packs seals short known;
      }

  -- The blocks of the entries before have this one's bytes where they have its digest.
  module _ (offset : ℕ) (b : Block) (at : InFile c p (map_of bs) s.file b)
      (here : b.0.cluster_offset ≡ offset) (same : b.1 ≡ plain) (behind : base ≤ offset) where
    numbered_shared : ordinal offset (map_of bs) ≡ some at.index
    numbered_shared = subst (λ o. ordinal o (map_of bs) ≡ some at.index) here at.numbered

    stored_shared : InFile c p (map_of bs) s.file (entry_at s offset (c.sha256 plain), plain)
    stored_shared = record {
      front = at.front;
      cluster = at.cluster;
      back = at.back;
      index = at.index;
      laid = at.laid;
      placed = sym here ∙ at.placed;
      valid = at.valid;
      numbered = numbered_shared;
      decoded = at.decoded ∙ ap ok same;
      hashed = refl;
    }

    map_shared : map_of (bs ++ (entry_at s offset (c.sha256 plain), plain) ∷ []) ≡ map_of bs
    map_shared =
        map_of-snoc bs (entry_at s offset (c.sha256 plain), plain)
        ∙ or_insert_known offset (length (map_of bs)) at.index (map_of bs) numbered_shared

    pub share_cluster-Takes : Takes c p D base remaining bs s plain (
        share_cluster c p.cluster_compression p.cluster_encryption p.cluster_key s
          (c.sha256 plain)
          offset)
    unfolding share_cluster record_share
    share_cluster-Takes =
        let b' : Block = (entry_at s offset (c.sha256 plain), plain) in
        let budget = r.budget in
        let some_left : (s.cluster_count == 0) ≡ false = ground arith in
        let all =
          All-append (InFile c p (map_of bs) s.file) bs (b' ∷ []) r.stored (stored_shared, tt) in
        record {
          state = record_share s (c.sha256 plain) offset;
          entry = entry_at s offset (c.sha256 plain);
          runs = rw some_left refl;
          placed = refl;
          still = refl;
          represents = record {
            listed = rw (map_snoc bs b', r.listed) refl;
            positioned = r.positioned;
            numbered = r.numbered ∙ sym (ap length map_shared);
            budget = omega (arith, r.budget);
            nonces = pop-CountsNonces p.cluster_encryption s.nonce_table s.cluster_count r.nonces;
            extends = λ i n h. r.extends i n (pop-Extends s.nonce_table i n h);
            stored = subst (λ n. All (InFile c p n s.file) (bs ++ b' ∷ [])) (sym map_shared) all;
            known = All-append (λ (x : Block). D x.1) bs (b' ∷ []) r.known (known, tt);
            taken = r.taken;
            based = r.based;
            begun =
                All-append (λ (x : Block). base ≤ x.0.cluster_offset) bs (b' ∷ []) r.begun
                  (behind, tt);
          };
        }
