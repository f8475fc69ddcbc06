-- ===== src/Convert/Counters.antt =====
-- The counters of the conversion when its loop is done.
use goldboot.Base.{ℕ, ◌≡◌, sym, ap, ◌∙◌, List, length, length-map, arith, All, ok}
use native.Mathlib.Nat.{add-zero}
use goldboot.Crates.{Crates, AreLawful}
use goldboot.Format.{ProtectedHeader}
use goldboot.Apply.{build_cluster_ordinal_map}
use goldboot.Apply.Restores.{entry_of}
use goldboot.Qcow.{Qcow3, count_clusters}
use goldboot.Convert.{Conversion, convert_l1, initial_conversion}
use goldboot.Convert.Represents.{CountsNonces}
use goldboot.Convert.Runs.{item_of}
use goldboot.Convert.Counted.{length-disk_blocks}
use goldboot.Convert.Restores.{AreStorable, convert_l1_represents}
use goldboot.Convert.Blocks.{DiskBlock, disk_blocks}

-- Where the disk's clusters can be stored, the loop of `from_qcow` succeeds; the entries it pushed are
-- as many as the digest count that was written before it, and in the end `cluster_count`, the number
-- of clusters written, the number of distinct offsets in the digest table and, if clusters are
-- encrypted, the length of the nonce table are the same.
pub convert_l1_counts :
    (c : Crates) (p : ProtectedHeader) (D : List ℕ → Type 0) (source : List ℕ) (q : Qcow3)
    (items : List DiskBlock) (start : List ℕ)
    → AreLawful c
    → AreStorable c p D
    → disk_blocks c source q ≡ ok items
    → All (λ i. D i.1) items
    → p.cluster_count ≡ count_clusters source q
    → CountsNonces p.cluster_encryption p.nonce_table p.cluster_count
    → (s : Conversion) × (convert_l1 c p.cluster_compression p.cluster_encryption p.cluster_key
          source q q.l1_table
          (initial_conversion start p)
        ≡ ok s)
      × (length s.entries ≡ p.cluster_count)
      × (s.cluster_count ≡ s.ordinal)
      × (s.ordinal ≡ length (build_cluster_ordinal_map s.entries))
      × CountsNonces p.cluster_encryption s.nonce_table s.cluster_count
convert_l1_counts c p D source q items start lawful can read known counted nonces =
    let ran =
      convert_l1_represents c p D source q items start lawful can read known counted nonces in
    let r = ran.represents in
    (
      ran.state,
      ran.runs,
      omega (
        arith,
        ap length r.listed,
        length-map entry_of ran.new,
        ap length ran.listed,
        length-map item_of ran.new,
        length-disk_blocks c source q items read,
        counted,
      ),
      r.budget ∙ add-zero ran.state.ordinal,
      r.numbered ∙ sym (ap (λ es. length (build_cluster_ordinal_map es)) r.listed),
      r.nonces,
    )
