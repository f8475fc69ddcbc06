-- ===== src/Convert/ContentId.antt =====
-- The content ID of an image that was just made is the one that its file gives.
use goldboot.Base.{
  ℕ, ◌+◌, ◌%◌, ◌^◌, ◌≤◌, ◌<◌, ◌≡◌, refl, sym, ap, ◌∙◌, subst, List, ◌++◌, Option, length,
  append_assoc, length-append, arith, All, ok, bind-eq-ok, write_at,
}
use goldboot.Crates.{Crates, AreLawful, new_key}
use goldboot.Format.{DigestTable, PrimaryHeader, ProtectedHeader, Directory, ElementHeader}
use goldboot.Format.Write.{write_primary, write_protected}
use goldboot.Format.Layout.{length-write_primary_patched}
use goldboot.Handle.{ImageHandle, unwrap_or_default}
use goldboot.Qcow.{Qcow3, count_clusters}
use goldboot.Convert.{
  directory_of, Draws, Conversion, convert_l1, initial_primary, initial_protected,
  initial_conversion, final_primary, complete, seal_section, finish, convert_body, convert_image,
  table_of, from_qcow,
}
use goldboot.Convert.Represents.{Represents}
use goldboot.Convert.Runs.{ok_eq}
use goldboot.Convert.Blocks.{DiskBlock, disk_blocks}
use goldboot.Convert.Restores.{AreStorable, convert_l1_represents, finish-complete}
use goldboot.Handle.{cluster_region_bounds, primary_header_len, compute_content_id}
use goldboot.Handle.Region.{compute_content_id-slice}
use goldboot.Convert.EndToEnd.{from_qcow-converted, drawn_counts}
use goldboot.Base.{
  ◌-◌, drop-write_at, slice, false, ltb, take, drop, take-append, drop_front, length-drop,
}

module _ (c : Crates) (p : ProtectedHeader) (primary : PrimaryHeader) (directory : Directory)
    (table : DigestTable) (s : Conversion) (table_bytes directory_bytes : List ℕ) (base : ℕ)
    (within : base ≤ length s.file) (taken : s.hashed ≡ drop base s.file) where
  -- The region of the file between the headers and the digest table is what was hashed.
  region_hashed :
      (new tail : List ℕ)
      → length new ≤ base
      → slice base (length s.file - base) (write_at 0 new (s.file ++ tail)) ≡ s.hashed
  region_hashed new tail short =
      let longer = length-append s.file tail in
      let region : length s.file - base ≡ length (drop base s.file) =
        sym (length-drop base s.file) in
      ap (take (length s.file - base)) (
        drop-write_at 0 new (s.file ++ tail) (omega arith) base (omega arith)
        ∙ drop_front base s.file tail within)
      ∙ ap (λ (n : ℕ). take n (drop base s.file ++ tail)) region
      ∙ take-append (drop base s.file) tail
      ∙ sym taken

  complete_content_id :
      let r = complete c primary p directory table s table_bytes directory_bytes in
      length (write_primary primary) + directory.protected_size ≡ base
      → directory.digest_table_offset ≡ length s.file
      → length (c.sha256 s.hashed) ≡ length primary.content_id
      → (start : ℕ) × (end : ℕ) × (cluster_region_bounds r.1 ≡ ok (start, end))
        × (compute_content_id c r.0 start end ≡ ok r.1.primary_header.content_id)
  unfolding complete final_primary cluster_region_bounds primary_header_len
  complete_content_id starts ends as_long =
      let new = write_primary (final_primary c primary s table_bytes directory_bytes) in
      let kept : length new ≡ length (write_primary primary) =
        length-write_primary_patched primary (c.sha256 s.hashed) (length (s.file ++ table_bytes))
          (length directory_bytes % 2 ^ 32) as_long in
      let before : length new + directory.protected_size ≡ base = omega arith in
      let joined = append_assoc s.file table_bytes directory_bytes in
      let inside : ltb (length s.file) base ≡ false = ground arith in
      (
        base,
        length s.file,
        rw (before, ends, inside) refl,
        compute_content_id-slice c (write_at 0 new ((s.file ++ table_bytes) ++ directory_bytes))
              base (length s.file) within
            ∙ ap (λ (b : List ℕ). ok (c.sha256 b))
                (ap (λ (f : List ℕ). slice base (length s.file - base) (write_at 0 new f)) joined
                  ∙ region_hashed new (table_bytes ++ directory_bytes) (omega arith)),
      )

-- The content ID that `compute_content_id` finds in the cluster region of a file that `from_qcow` wrote
-- is the one in its primary header, and `cluster_region_bounds` of the returned handle gives that
-- region, if the disk's clusters can be stored, are fewer than 2 ^ 32 and can be read, and the stored
-- protected header is shorter than 4 GiB.
pub from_qcow-content_id :
    (c : Crates) (D : List ℕ → Type 0) (name tag : List ℕ) (metadata : List ElementHeader)
    (source : List ℕ) (q : Qcow3) (password : Option (List ℕ)) (d : Draws) (items : List DiskBlock)
    (file : List ℕ) (h : ImageHandle)
    → AreLawful c
    → AreStorable c (initial_protected source q password d) D
    → disk_blocks c source q ≡ ok items
    → All (λ i. D i.1) items
    → count_clusters source q < 2 ^ 32
    → ((n : ℕ) → length (d.nonces n) ≡ n)
    → ((bytes : List ℕ)
        → seal_section c
            (initial_primary name tag metadata q password d).encryption_type
            (new_key c (unwrap_or_default password))
            d.protected_nonce
            (write_protected (initial_protected source q password d))
          ≡ ok bytes
        → length bytes < 2 ^ 32)
    → from_qcow c name tag metadata source q password d ≡ ok (file, h)
    → (start : ℕ) × (end : ℕ) × (cluster_region_bounds h ≡ ok (start, end))
      × (compute_content_id c file start end ≡ ok h.primary_header.content_id)
unfolding initial_primary initial_protected convert_image convert_body directory_of
from_qcow-content_id c D name tag metadata source q password d items file h lawful can read known
      few drawn short made =
    let key = new_key c (unwrap_or_default password) in
    let primary = initial_primary name tag metadata q password d in
    let p = initial_protected source q password d in
    let count = count_clusters source q % 2 ^ 32 in
    let same_count : count ≡ count_clusters source q = omega arith in
    let (protected_bytes, sealed, made') =
      bind-eq-ok (seal_section c primary.encryption_type key d.protected_nonce (write_protected p))
        (λ b. convert_body c key d source q primary p b)
        (from_qcow-converted c name tag metadata source q password d (file, h) made) in
    let start = write_primary primary ++ protected_bytes in
    let loop =
      convert_l1 c p.cluster_compression p.cluster_encryption p.cluster_key source q q.l1_table
        (initial_conversion start p) in
    let (s, looped, finished) =
      bind-eq-ok loop
        (λ s. finish c key d primary p (length protected_bytes % 2 ^ 32) p.cluster_count s) made' in
    let ran =
      convert_l1_represents c p D source q items start lawful can read known same_count
        (drawn_counts password (d.nonces count) count (drawn count)) in
    let same : ran.state ≡ s = ok_eq (sym ran.runs ∙ looped) in
    let r = subst (λ t. Represents c p D (length start) 0 ran.new t) same ran.represents in
    let (table_bytes, directory_bytes, completed) =
      finish-complete c key d primary p (length protected_bytes % 2 ^ 32) p.cluster_count s
        (file, h) finished in
    let size_fits = short protected_bytes sealed in
    let (from, to, bounds, found) =
      complete_content_id c p primary
        (directory_of d (length protected_bytes % 2 ^ 32) s table_bytes)
        (table_of p.cluster_count s) s table_bytes directory_bytes (length start) r.based r.taken
        (omega (arith, length-append (write_primary primary) protected_bytes)) refl
        (lawful.length-sha256 s.hashed) in
    subst
      (λ (x : List ℕ × ImageHandle).
        (start : ℕ) × (end : ℕ) × (cluster_region_bounds x.1 ≡ ok (start, end))
        × (compute_content_id c x.0 start end ≡ ok x.1.primary_header.content_id))
      completed (from, to, bounds, found)
