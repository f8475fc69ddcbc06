-- ===== src/Convert/EndToEnd.antt =====
-- A qcow2 disk, converted to an image, and the image written to a file: the file is the disk.
use goldboot.Base.{
  ℕ, ◌+◌, ◌*◌, ◌%◌, ◌^◌, ◌≤◌, ◌<◌, ◌≡◌, refl, sym, ap, ◌∙◌, subst, true, List, ◌++◌, Option, none,
  some, length, append_assoc, length-append, map, arith, All, ok, bind, bind-eq-ok, replicate,
  write_at,
}
use goldboot.Crates.{Crates, AreLawful, new_key}
use goldboot.Format.{PrimaryHeader, ProtectedHeader, Directory, ElementHeader}
use goldboot.Format.Write.{write_primary, write_protected}
use goldboot.Format.Layout.{length-write_primary_patched}
use goldboot.Handle.{ImageHandle, unwrap_or_default}
use goldboot.Apply.{Dest, Writing, write, build_cluster_ordinal_map}
use goldboot.Apply.Restores.{Block, Fits, AreStored, NoCollision, write_restores}
use goldboot.Qcow.{Qcow3, cluster_size, l2_entries_per_cluster, count_clusters}
use goldboot.Convert.{
  directory_of, Draws, Conversion, convert_l1, initial_primary, initial_protected,
  cluster_encryption_of, nonces_drawn, initial_conversion, final_primary, complete, seal_section,
  finish, convert_body, convert_image, table_of, fits_u8, from_qcow,
}
use goldboot.Reference.{validate_ref_segment}
use goldboot.Convert.Represents.{CountsNonces, map_of, Represents}
use goldboot.Convert.Runs.{item_of, ok_eq}
use goldboot.Convert.Extent.{Between, Between→Fits, blocks_l1-Between}
use goldboot.Convert.Blocks.{DiskBlock, disk_blocks}
use goldboot.Convert.Restores.{
  AreStorable, convert_l1_represents, finish-complete, ShowsDisk, Shows→ShowsDisk, NoBlankCollision,
  NoBlankCollision→NoCollision, All→AreStored,
}

module _ (c : Crates) (p : ProtectedHeader) (D : List ℕ → Type 0) (q : Qcow3)
    (items : List DiskBlock) (primary : PrimaryHeader) (h' : ImageHandle) (dest : Dest)
    (can : AreStorable c p D) (block_size_fits : p.block_size ≡ cluster_size q.header)
    (size_kept : primary.size ≡ q.header.size) (id_long : length primary.content_id ≡ 32)
    (lawful : AreLawful c) (blank : NoBlankCollision c D p.block_size q.header.size)
    (protected : h'.protected_header ≡ some p) (regular : dest.is_file ≡ true) where
  complete_restores :
      (base count to : ℕ) (s : Conversion) (bs : List Block) (directory : Directory)
      (table_bytes directory_bytes : List ℕ)
      → Represents c p D base 0 bs s
      → Between (cluster_size q.header) q.header.size 0 to (map item_of bs)
      → map item_of bs ≡ items
      → length (write_primary primary) ≤ base
      → h'.primary_header ≡ final_primary c primary s table_bytes directory_bytes
      → h'.digest_table ≡ some (table_of count s)
      → (w : Writing) × (write c
            (complete c primary p directory (table_of count s) s table_bytes directory_bytes).0
            h'
            dest
          ≡ ok w)
        × (length w.dest.content ≡ q.header.size)
        × ShowsDisk w.dest.content items
  unfolding complete final_primary
  complete_restores base count to s bs directory table_bytes directory_bytes r between listed short
        hp ht =
      let final = final_primary c primary s table_bytes directory_bytes in
      let new = write_primary final in
      let tail = table_bytes ++ directory_bytes in
      let image = write_at 0 new (s.file ++ tail) in
      let sized : h'.primary_header.size ≡ q.header.size =
        ap (λ (k : PrimaryHeader). k.size) hp ∙ size_kept in
      let as_long =
        length-write_primary_patched primary (c.sha256 s.hashed) (length (s.file ++ table_bytes))
          (length directory_bytes % 2 ^ 32) (lawful.length-sha256 s.hashed ∙ sym id_long) in
      let stored =
        All→AreStored c p D (map_of bs) s.file tail new base bs can (omega arith) r.based r.stored
          r.known r.begun in
      let on_disk : AreStored c p (build_cluster_ordinal_map s.entries) image bs =
        subst (λ es. AreStored c p (build_cluster_ordinal_map es) image bs) (sym r.listed) stored in
      let fits : Fits p.block_size h'.primary_header.size 0 bs =
        rw (block_size_fits, sized)
          (Between→Fits (cluster_size q.header) q.header.size 0 to bs between) in
      let no_collision : NoCollision c p.block_size (replicate h'.primary_header.size 0) bs =
        rw sized (
          NoBlankCollision→NoCollision c p D (map_of bs) s.file p.block_size q.header.size bs blank
            r.stored r.known) in
      let (w, ran, contents, long, shown) =
        write_restores c image h' dest bs p (table_of count s) protected ht r.listed regular on_disk
          fits no_collision in
      let joined = append_assoc s.file table_bytes directory_bytes in
      (
        w,
        subst (λ f. write c (write_at 0 new f) h' dest ≡ ok w) (sym joined) ran,
        long ∙ sized,
        subst (ShowsDisk w.dest.content) listed (Shows→ShowsDisk w.dest.content bs shown),
      )

  pub convert_image_restores :
      (key : List ℕ) (d : Draws) (source : List ℕ) (file : List ℕ) (h : ImageHandle)
      → disk_blocks c source q ≡ ok items
      → All (λ i. D i.1) items
      → p.cluster_count ≡ count_clusters source q
      → CountsNonces p.cluster_encryption p.nonce_table p.cluster_count
      → convert_image c key d source q primary p ≡ ok (file, h)
      → h'.primary_header ≡ h.primary_header
      → h'.digest_table ≡ h.digest_table
      → (w : Writing) × (write c file h' dest ≡ ok w)
        × (length w.dest.content ≡ q.header.size)
        × ShowsDisk w.dest.content items
  unfolding convert_image convert_body complete disk_blocks
  convert_image_restores key d source file h read known counted nonces made hp ht =
      let (protected_bytes, sealed, made') =
        bind-eq-ok
          (seal_section c primary.encryption_type key d.protected_nonce (write_protected p))
          (λ b. convert_body c key d source q primary p b) made in
      let start = write_primary primary ++ protected_bytes in
      let loop =
        convert_l1 c p.cluster_compression p.cluster_encryption p.cluster_key source q q.l1_table
          (initial_conversion start p) in
      let (s, looped, finished) =
        bind-eq-ok loop
          (λ s. finish c key d primary p (length protected_bytes % 2 ^ 32) p.cluster_count s)
          made' in
      let ran =
        convert_l1_represents c p D source q items start lawful can read known counted nonces in
      let same : ran.state ≡ s = ok_eq (sym ran.runs ∙ looped) in
      let (table_bytes, directory_bytes, completed) =
        finish-complete c key d primary p (length protected_bytes % 2 ^ 32) p.cluster_count s
          (file, h) finished in
      let base = length start in
      let (w, wrote, long, shown) =
        complete_restores base p.cluster_count
          (0 + cluster_size q.header * l2_entries_per_cluster q.header * length q.l1_table) s
          ran.new (directory_of d (length protected_bytes % 2 ^ 32) s table_bytes) table_bytes
          directory_bytes (subst (λ t. Represents c p D base 0 ran.new t) same ran.represents)
          (subst
            (Between (cluster_size q.header) q.header.size 0
              (0 + cluster_size q.header * l2_entries_per_cluster q.header * length q.l1_table))
            (sym ran.listed) (blocks_l1-Between c source q lawful q.l1_table 0 items read))
          ran.listed (omega (arith, length-append (write_primary primary) protected_bytes))
          (hp ∙ sym (ap (λ (r : List ℕ × ImageHandle). r.1.primary_header) completed))
          (ht ∙ sym (ap (λ (r : List ℕ × ImageHandle). r.1.digest_table) completed)) in
      (
        w,
        subst (λ f. write c f h' dest ≡ ok w) (ap (λ (r : List ℕ × ImageHandle). r.0) completed)
            wrote,
        long,
        shown,
      )

pub drawn_counts :
    (password : Option (List ℕ)) (nonces : List (List ℕ)) (n : ℕ)
    → length nonces ≡ n
    → CountsNonces (cluster_encryption_of password) (nonces_drawn password nonces) n
drawn_counts none nonces n h = tt
drawn_counts (some password) nonces n h = h

pub from_qcow-converted :
    (c : Crates) (name tag : List ℕ) (metadata : List ElementHeader) (source : List ℕ) (q : Qcow3)
    (password : Option (List ℕ)) (d : Draws) (r : List ℕ × ImageHandle)
    → from_qcow c name tag metadata source q password d ≡ ok r
    → convert_image c
        (new_key c (unwrap_or_default password))
        d
        source
        q
        (initial_primary name tag metadata q password d)
        (initial_protected source q password d)
      ≡ ok r
unfolding from_qcow
from_qcow-converted c name tag metadata source q password d r e =
    let image =
      convert_image c (new_key c (unwrap_or_default password)) d source q
        (initial_primary name tag metadata q password d) (initial_protected source q password d) in
    let after_name = bind (fits_u8 (length name)) λ _. bind (fits_u8 (length tag)) λ _. image in
    let after_metadata = bind (fits_u8 (length metadata)) λ _. after_name in
    let (u, v, e1) =
      bind-eq-ok (validate_ref_segment name)
        (λ _. bind (validate_ref_segment tag) λ _. after_metadata) e in
    let (u2, v2, e2) = bind-eq-ok (validate_ref_segment tag) (λ _. after_metadata) e1 in
    let (u3, v3, e3) = bind-eq-ok (fits_u8 (length metadata)) (λ _. after_name) e2 in
    let (u4, v4, e4) =
      bind-eq-ok (fits_u8 (length name)) (λ _. bind (fits_u8 (length tag)) λ _. image) e3 in
    let (u5, v5, e5) = bind-eq-ok (fits_u8 (length tag)) (λ _. image) e4 in e5

-- An image that `from_qcow` made of a qcow2 disk, written to a regular file with the headers that it
-- stored, gives the disk back: `write` succeeds, the file has the disk's size, and every allocated
-- cluster stands at its offset, cut off at the disk's end. The disk's clusters have a property `D` of
-- byte strings on which the hash has no collision, is not zero and is not that of a range of zeros,
-- and which can be compressed and encrypted; they are fewer than 2 ^ 32, and of less than 4 GiB each.
pub from_qcow_restores :
    (c : Crates) (D : List ℕ → Type 0) (name tag : List ℕ) (metadata : List ElementHeader)
    (source : List ℕ) (q : Qcow3) (password : Option (List ℕ)) (d : Draws) (items : List DiskBlock)
    (file : List ℕ) (h h' : ImageHandle) (dest : Dest)
    → AreLawful c
    → AreStorable c (initial_protected source q password d) D
    → NoBlankCollision c D (cluster_size q.header) q.header.size
    → disk_blocks c source q ≡ ok items
    → All (λ i. D i.1) items
    → count_clusters source q < 2 ^ 32
    → cluster_size q.header < 2 ^ 32
    → ((n : ℕ) → length (d.nonces n) ≡ n)
    → from_qcow c name tag metadata source q password d ≡ ok (file, h)
    → h'.primary_header ≡ h.primary_header
    → h'.digest_table ≡ h.digest_table
    → h'.protected_header ≡ some (initial_protected source q password d)
    → dest.is_file ≡ true
    → (w : Writing) × (write c file h' dest ≡ ok w)
      × (length w.dest.content ≡ q.header.size)
      × ShowsDisk w.dest.content items
unfolding initial_primary initial_protected
from_qcow_restores c D name tag metadata source q password d items file h h' dest lawful can blank
      read known few small drawn made hp ht protected regular =
    let count = count_clusters source q % 2 ^ 32 in
    let p = initial_protected source q password d in
    let same_count : count ≡ count_clusters source q = omega arith in
    let same_size : p.block_size ≡ cluster_size q.header = omega arith in
    convert_image_restores c p D q items (initial_primary name tag metadata q password d) h' dest
      can same_size refl refl lawful
      (subst (λ n. NoBlankCollision c D n q.header.size) (sym same_size) blank) protected regular
      (new_key c (unwrap_or_default password)) d source file h read known same_count
      (drawn_counts password (d.nonces count) count (drawn count))
      (from_qcow-converted c name tag metadata source q password d (file, h) made) hp ht
