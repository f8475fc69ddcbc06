-- ===== src/Convert/Tables.antt =====
-- The loop over the L1 table, and what the conversion's counters come to.
use goldboot.Base.{
  ℕ, ◌+◌, ◌*◌, ◌≡◌, refl, sym, ap, ◌∙◌, subst, List, [], ◌∷◌, ◌++◌, append-nil, append_assoc,
  Option, none, some, length, length-append, map, arith, All, ok, bind, bind-eq-ok,
}
use native.Mathlib.Nat.{zero-add}
use goldboot.Crates.{Crates, AreLawful}
use goldboot.Format.{ProtectedHeader}
use goldboot.Apply.Restores.{Block}
use goldboot.Qcow.{Qcow3, L1Entry, L2Entry, cluster_size, l2_entries_per_cluster, read_l2}
use goldboot.Qcow.Allocation.{length-read_l2}
use goldboot.Convert.{Conversion, advance, convert_l2, convert_table, convert_l1}
use goldboot.Convert.Represents.{IsStorable, Represents}
use goldboot.Convert.Runs.{
  item_of, ok_eq, map-append_items, Ran, advance-Represents, convert_l2-Ran,
}
use goldboot.Convert.Blocks.{DiskBlock, blocks_of_table, blocks_l1}

All-split {ℓ κ} :
    {A : Type ℓ} (P : A → Type κ) (xs ys : List A) → All P (xs ++ ys) → All P xs × All P ys
All-split P [] ys h = (tt, h)
All-split P (x ∷ xs) ys h = let (front, back) = All-split P xs ys h.1 in ((h.0, front), back)

module _ (c : Crates) (p : ProtectedHeader) (D : List ℕ → Type 0) (base : ℕ) (lawful : AreLawful c)
    (storable : (x : List ℕ) → D x → IsStorable c p x)
    (distinct : (x y : List ℕ) → D x → D y → c.sha256 x ≡ c.sha256 y → x ≡ y) (source : List ℕ)
    (q : Qcow3) where
  -- A stretch that takes nothing.
  nothing-Ran :
      (remaining off : ℕ) (bs : List Block) (s : Conversion) (items : List DiskBlock)
      → [] ≡ items
      → s.block_offset ≡ off
      → Represents c p D base (length items + remaining) bs s
      → Ran c p D base remaining bs items off (ok s)
  nothing-Ran remaining off bs s items empty at r =
      let r' = subst (λ is. Represents c p D base (length is + remaining) bs s) (sym empty) r in
      record {
        state = s;
        new = [];
        runs = refl;
        listed = empty;
        arrived = at;
        represents =
            subst (λ n. Represents c p D base n (bs ++ []) s) (zero-add remaining)
              (subst (λ bs'. Represents c p D base (0 + remaining) bs' s) (sym (append-nil bs)) r');
      }

  convert_table-Ran :
      (x : L1Entry) (table : Option (List L2Entry)) (off remaining : ℕ) (bs : List Block)
      (s : Conversion) (items : List DiskBlock)
      → read_l2 source q.header.cluster_bits x ≡ table
      → s.block_offset ≡ off
      → Represents c p D base (length items + remaining) bs s
      → All (λ i. D i.1) items
      → blocks_of_table c source q off table ≡ ok items
      → Ran c p D base remaining bs items
          (off + cluster_size q.header * l2_entries_per_cluster q.header)
          (convert_table c p.cluster_compression p.cluster_encryption p.cluster_key source q table
            s)
  unfolding convert_table advance
  convert_table-Ran x none off remaining bs s items read at r known h =
      let span = cluster_size q.header * l2_entries_per_cluster q.header in
      nothing-Ran remaining (off + span) bs (advance span s) items (ok_eq h)
        (ap (λ (n : ℕ). n + span) at)
        (advance-Represents c p D base lawful storable distinct (length items + remaining) span bs s
          r)
  convert_table-Ran x (some es) off remaining bs s items read at r known h =
      subst
        (λ n.
          Ran c p D base remaining bs items (off + cluster_size q.header * n)
            (convert_l2 c p.cluster_compression p.cluster_encryption p.cluster_key source q es s))
        (length-read_l2 q.header source x es read)
        (convert_l2-Ran c p D base lawful storable distinct source q es off remaining bs s items at
          r known h)

  -- The loop over a part of the L1 table takes the blocks under it and no others.
  pub convert_l1-Ran :
      (xs : List L1Entry) (off remaining : ℕ) (bs : List Block) (s : Conversion)
      (items : List DiskBlock)
      → s.block_offset ≡ off
      → Represents c p D base (length items + remaining) bs s
      → All (λ i. D i.1) items
      → blocks_l1 c source q off xs ≡ ok items
      → Ran c p D base remaining bs items
          (off + cluster_size q.header * l2_entries_per_cluster q.header * length xs)
          (convert_l1 c p.cluster_compression p.cluster_encryption p.cluster_key source q xs s)
  unfolding convert_l1 blocks_l1
  convert_l1-Ran [] off remaining bs s items at r known h =
      nothing-Ran remaining _ bs s items (ok_eq h) (ground (arith, at)) r
  convert_l1-Ran (x ∷ xs) off remaining bs s items at r known h =
      let span = cluster_size q.header * l2_entries_per_cluster q.header in
      let table = read_l2 source q.header.cluster_bits x in
      let later = blocks_l1 c source q (off + span) xs in
      let (here, first, h') =
        bind-eq-ok (blocks_of_table c source q off table) (λ a. bind later λ b. ok (a ++ b)) h in
      let (rest, others, made) = bind-eq-ok later (λ b. ok (here ++ b)) h' in
      let same : here ++ rest ≡ items = ok_eq made in
      let (here_known, rest_known) =
        All-split (λ i. D i.1) here rest (subst (All (λ i. D i.1)) (sym same) known) in
      let split : length items + remaining ≡ length here + (length rest + remaining) =
        omega (arith, ap length same, length-append here rest) in
      let a =
        convert_table-Ran x table off (length rest + remaining) bs s here refl at
          (subst (λ n. Represents c p D base n bs s) split r) here_known first in
      let b =
        convert_l1-Ran xs (off + span) remaining (bs ++ a.new) a.state rest a.arrived a.represents
          rest_known others in
      record {
        state = b.state;
        new = a.new ++ b.new;
        runs = rw (a.runs) (b.runs);
        listed =
            map-append_items a.new b.new
            ∙ ap (λ t. t ++ map item_of b.new) a.listed
            ∙ ap (λ t. here ++ t) b.listed
            ∙ same;
        arrived = b.arrived ∙ ground arith;
        represents =
            subst (λ bs'. Represents c p D base remaining bs' b.state) (append_assoc bs a.new b.new)
              (b.represents);
      }
