-- ===== src/Convert/Runs.antt =====
-- The loop takes every block of the disk, in order.
use goldboot.Base.{
  ℕ, suc, ◌+◌, ◌*◌, ◌≤◌, ◌≡◌, refl, sym, ap, ◌∙◌, subst, List, [], ◌∷◌, ◌++◌, append-nil,
  append_assoc, Option, none, some, length, map, arith, All, Result, ok, bind, bind-eq-ok,
  Option-cases, inl, inr,
}
use native.Mathlib.Nat.{zero-add, suc-add}
use goldboot.Crates.{Crates, AreLawful}
use goldboot.Format.{ProtectedHeader}
use goldboot.Apply.Restores.{Block}
use goldboot.Qcow.{Qcow3, L2Entry, cluster_size, read_contents}
use goldboot.Convert.{
  Conversion, find_digest, advance, truncate_block, convert_plain, convert_block, convert_contents,
  convert_l2,
}
use goldboot.Convert.Stored.{InFile}
use goldboot.Convert.Represents.{IsStorable, map_of, Represents, find_digest-found}
use goldboot.Convert.Steps.{Takes, store_cluster-Takes, share_cluster-Takes}
use goldboot.Convert.Blocks.{DiskBlock, block_of, blocks_l2}

abbrev pub item_of : Block → DiskBlock
item_of (e, x) = (e.block_offset, x)

pub ok_eq {ℓ} : {A : Type ℓ} {a b : A} → ok a ≡ ok b → a ≡ b
ok_eq h = cc

All-pair {ℓ κ μ} :
    {A : Type ℓ} (P : A → Type κ) (Q : A → Type μ) (xs : List A)
    → All P xs
    → All Q xs
    → All (λ x. P x × Q x) xs
All-pair P Q [] hp hq = tt
All-pair P Q (x ∷ xs) hp hq = ((hp.0, hq.0), All-pair P Q xs hp.1 hq.1)

pub map-append_items :
    (xs ys : List Block) → map item_of (xs ++ ys) ≡ map item_of xs ++ map item_of ys
map-append_items [] ys = refl
map-append_items (x ∷ xs) ys = ap (λ (t : List DiskBlock). item_of x ∷ t) (map-append_items xs ys)

-- A stretch of the loop that succeeds, with the blocks it took.
pub record Ran (c : Crates) (p : ProtectedHeader) (D : List ℕ → Type 0) (base : ℕ) (remaining : ℕ)
    (bs : List Block) (items : List DiskBlock) (off : ℕ) (result : Result Conversion) : Type 0 where
  pub state : Conversion
  pub new : List Block
  pub runs : result ≡ ok state
  pub listed : map item_of new ≡ items
  pub arrived : state.block_offset ≡ off
  pub represents : Represents c p D base remaining (bs ++ new) state

module _ (c : Crates) (p : ProtectedHeader) (D : List ℕ → Type 0) (base : ℕ) (lawful : AreLawful c)
    (storable : (x : List ℕ) → D x → IsStorable c p x)
    (distinct : (x y : List ℕ) → D x → D y → c.sha256 x ≡ c.sha256 y → x ≡ y) where
  pub advance-Represents :
      (remaining n : ℕ) (bs : List Block) (s : Conversion)
      → Represents c p D base remaining bs s
      → Represents c p D base remaining bs (advance n s)
  unfolding advance
  advance-Represents remaining n bs s r = record {
    listed = r.listed;
    positioned = r.positioned;
    numbered = r.numbered;
    budget = r.budget;
    nonces = r.nonces;
    extends = r.extends;
    stored = r.stored;
    known = r.known;
    taken = r.taken;
    based = r.based;
    begun = r.begun;
  }

  convert_plain-Takes :
      (remaining : ℕ) (bs : List Block) (s : Conversion) (plain : List ℕ)
      → Represents c p D base (suc remaining) bs s
      → D plain
      → Takes c p D base remaining bs s plain
          (convert_plain c p.cluster_compression p.cluster_encryption p.cluster_key plain s)
  unfolding convert_plain
  convert_plain-Takes remaining bs s plain r known =
      elim (Option-cases (find_digest (c.sha256 plain) s.entries)) [
        | inl q ↦
            rw (convert_plain, q)
              (store_cluster-Takes c p D base lawful remaining bs s r plain known
                (storable plain known))
        | inr (o, q) ↦
            let kept = All-pair (λ b. D b.1) (λ b. base ≤ b.0.cluster_offset) bs r.known r.begun in
            let (b, (at, (was_known, behind)), same, here) =
              find_digest-found
                (λ b. InFile c p (map_of bs) s.file b × (D b.1 × (base ≤ b.0.cluster_offset)))
                (c.sha256 plain) bs o
                (All-pair (InFile c p (map_of bs) s.file) (λ b. D b.1 × (base ≤ b.0.cluster_offset))
                  bs r.stored kept)
                (rw (r.listed) at q) in
            rw (convert_plain, q)
              (share_cluster-Takes c p D base lawful remaining bs s r plain known o b at here
                (distinct b.1 plain was_known known (at.hashed ∙ same))
                (subst (λ o. base ≤ o) here behind))
      ]

  convert_block-Takes :
      (size block_size remaining : ℕ) (bs : List Block) (s : Conversion) (contents plain : List ℕ)
      → Represents c p D base (suc remaining) bs s
      → D plain
      → truncate_block size block_size s.block_offset contents ≡ ok plain
      → Takes c p D base remaining bs s plain (
          convert_block c p.cluster_compression p.cluster_encryption p.cluster_key size block_size
            contents s)
  unfolding convert_block
  convert_block-Takes size block_size remaining bs s contents plain r known cut =
      rw cut (convert_plain-Takes remaining bs s plain r known)

  module _ (source : List ℕ) (q : Qcow3) where
    -- The statement for the rest of an L2 table.
    abbrev pub RunsL2 : List L2Entry → Type 0
    RunsL2 es =
        (off remaining : ℕ) (bs : List Block) (s : Conversion) (items : List DiskBlock)
        → s.block_offset ≡ off
        → Represents c p D base (length items + remaining) bs s
        → All (λ i. D i.1) items
        → blocks_l2 c source q off es ≡ ok items
        → Ran c p D base remaining bs items (off + cluster_size q.header * length es)
            (convert_l2 c p.cluster_compression p.cluster_encryption p.cluster_key source q es s)

    module _ (es : List L2Entry) (go : RunsL2 es) (off remaining : ℕ) (bs : List Block)
        (s : Conversion) (at : s.block_offset ≡ off) where
      further :
          off + cluster_size q.header + cluster_size q.header * length es
          ≡ off + cluster_size q.header * suc (length es)
      further = ground arith

      taken-Ran :
          (contents plain : List ℕ) (xs : List DiskBlock)
          → Represents c p D base (suc (length xs + remaining)) bs s
          → D plain
          → All (λ i. D i.1) xs
          → truncate_block q.header.size (cluster_size q.header) off contents ≡ ok plain
          → blocks_l2 c source q (off + cluster_size q.header) es ≡ ok xs
          → Ran c p D base remaining bs
              ((off, plain) ∷ xs)
              (off + cluster_size q.header * suc (length es))
              (bind
                (convert_block c p.cluster_compression p.cluster_encryption p.cluster_key
                  q.header.size
                  (cluster_size q.header)
                  contents
                  s)
                (λ t.
                  convert_l2 c p.cluster_compression p.cluster_encryption p.cluster_key source q es
                    (advance (cluster_size q.header) t)))
      unfolding advance
      taken-Ran contents plain xs r known rest_known cut h =
          let cs = cluster_size q.header in
          let t =
            convert_block-Takes q.header.size cs (length xs + remaining) bs s contents plain r known
              (rw at cut) in
          let ran =
            go (off + cs) remaining (bs ++ (t.entry, plain) ∷ []) (advance cs t.state) xs
              (ap (λ (n : ℕ). n + cs) (t.still ∙ at))
              (advance-Represents (length xs + remaining) cs (bs ++ (t.entry, plain) ∷ []) t.state
                t.represents)
              rest_known h in
          record {
            state = ran.state;
            new = (t.entry, plain) ∷ ran.new;
            runs = rw (t.runs) (ran.runs);
            listed = rw (ran.listed, t.placed, at) refl;
            arrived = ran.arrived ∙ further;
            represents =
                subst (λ bs'. Represents c p D base remaining bs' ran.state)
                  (append_assoc bs ((t.entry, plain) ∷ []) ran.new) (ran.represents);
          }

      entry-Ran :
          (contents : Option (List ℕ)) (items : List DiskBlock)
          → Represents c p D base (length items + remaining) bs s
          → All (λ i. D i.1) items
          → block_of q.header.size
              (cluster_size q.header)
              off
              contents
              (blocks_l2 c source q (off + cluster_size q.header) es)
            ≡ ok items
          → Ran c p D base remaining bs items (off + cluster_size q.header * suc (length es)) (
              bind
                (convert_contents c p.cluster_compression p.cluster_encryption p.cluster_key
                  q.header.size
                  (cluster_size q.header)
                  contents
                  s)
                (λ t.
                  convert_l2 c p.cluster_compression p.cluster_encryption p.cluster_key source q es
                    (advance (cluster_size q.header) t)))
      unfolding convert_contents advance
      entry-Ran none items r known h =
          let cs = cluster_size q.header in
          subst
            (λ o. Ran c p D base remaining bs items o (
              convert_l2 c p.cluster_compression p.cluster_encryption p.cluster_key source q es
                (advance cs s)))
            further
            (go (off + cs) remaining bs (advance cs s) items (ap (λ (n : ℕ). n + cs) at)
              (advance-Represents (length items + remaining) cs bs s r) known h)
      entry-Ran (some contents) items r known h =
          let cs = cluster_size q.header in
          let later = blocks_l2 c source q (off + cs) es in
          let (plain, cut, h') =
            bind-eq-ok (truncate_block q.header.size cs off contents)
              (λ x. bind later λ xs. ok ((off, x) ∷ xs)) h in
          let (xs, tail, made) = bind-eq-ok later (λ xs. ok ((off, plain) ∷ xs)) h' in
          let same : (off, plain) ∷ xs ≡ items = ok_eq made in
          let r' = subst (λ is. Represents c p D base (length is + remaining) bs s) (sym same) r in
          let r'' = subst (λ n. Represents c p D base n bs s) (suc-add (length xs) remaining) r' in
          let known' = subst (All (λ i. D i.1)) (sym same) known in
          subst
            (λ is. Ran c p D base remaining bs is (off + cs * suc (length es)) (
              bind
                (convert_block c p.cluster_compression p.cluster_encryption p.cluster_key
                  q.header.size cs contents s)
                (λ t.
                  convert_l2 c p.cluster_compression p.cluster_encryption p.cluster_key source q es
                    (advance cs t))))
            same (taken-Ran contents plain xs r'' known'.0 known'.1 cut tail)

    pub convert_l2-Ran : (es : List L2Entry) → RunsL2 es
    unfolding convert_l2 blocks_l2
    convert_l2-Ran [] off remaining bs s items at r known h =
        let empty : [] ≡ items = ok_eq h in
        let r' = subst (λ is. Represents c p D base (length is + remaining) bs s) (sym empty) r in
        record {
          state = s;
          new = [];
          runs = refl;
          listed = empty;
          arrived = ground (arith, at);
          represents =
              subst (λ n. Represents c p D base n (bs ++ []) s) (zero-add remaining)
                (subst (λ bs'. Represents c p D base (0 + remaining) bs' s) (sym (append-nil bs))
                  r');
        }
    convert_l2-Ran (e ∷ es) off remaining bs s items at r known h =
        let (contents, read, h') =
          bind-eq-ok (read_contents c source (cluster_size q.header) q.header.compression_type e)
            (λ contents.
              block_of q.header.size (cluster_size q.header) off contents
                (blocks_l2 c source q (off + cluster_size q.header) es))
            h in
        rw read (entry-Ran es (convert_l2-Ran es) off remaining bs s at contents items r known h')
