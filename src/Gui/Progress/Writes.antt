-- ===== src/Gui/Progress/Writes.antt =====
-- The progress of `ImageHandle::write` as the screens count it.
use goldboot.Base.{
  ℕ, suc, ◌+◌, ◌*◌, ◌^◌, ◌<◌, ◌≤◌, Bool, true, false, List, [], ◌∷◌, ◌++◌, append-nil, append_assoc,
  none, some, length, length-append, replicate, if◌then◌else◌, ok, bind-eq-ok, All, All-append, ◌≡◌,
  refl, sym, ap, ◌∙◌, ◌⊎◌, inl, inr, arith, Bool-cases,
}
use native.Mathlib.Nat.{zero-add, suc-mul, mul-le-mul_right}
use goldboot.Crates.{Crates}
use goldboot.Format.{ProtectedHeader, DigestTable, DigestTableEntry}
use goldboot.Handle.{ImageHandle}
use goldboot.Apply.{
  Dest, OrdinalMap, Progress, Writing, write_entry, write_entries, write, is_dirty, fetch_block,
  put, tell,
}
use goldboot.Gui.Progress.{
  BlockState, pending, writing, written, up_to_date, verifying, verified, failed, WriteProgress,
  new_progress, write_state, count_write, record_cluster, record_all, count_where, is_written,
  is_up_to_date, is_processed, blocks_written, blocks_up_to_date, blocks_processed,
}
use goldboot.Gui.Progress.Counts.{
  set_state-middle, add_u64-fits, record_all-append, count_where-append, count_where_all,
  count_where-le, count_where_either,
}

-- What `write` tells of a block, by whether it was dirty.
abbrev told_of : ℕ → Bool → Progress
told_of i true = (i, none) ∷ (i, some true) ∷ []
told_of i false = (i, some false) ∷ []

write_entry_tells :
    (c : Crates) (h : ProtectedHeader) (ordinals : OrdinalMap) (image : List ℕ) (i : ℕ)
    (e : DigestTableEntry) (w w' : Writing)
    → write_entry c h ordinals image i e w ≡ ok w'
    → (dirty : Bool) × (w'.progress ≡ w.progress ++ told_of i dirty)
unfolding write_entry
write_entry_tells c h ordinals image i e w w' m = elim (Bool-cases (is_dirty c h e w.dest)) [
  | inl q ↦
      let m' = rw q at m in
      let fetched = bind-eq-ok (fetch_block c h ordinals image e) _ m' in
      let put_back = bind-eq-ok (put e.block_offset fetched.0 w.dest) _ fetched.2 in
      let last = put_back.2 in
      let same : record w {
        dest = put_back.0;
        progress = tell i (some true) (tell i none w.progress);
      }
          ≡ w' =
        cc in
      (
        true,
        sym (ap (λ (v : Writing). v.progress) same)
            ∙ append_assoc w.progress ((i, none) ∷ []) ((i, some true) ∷ []),
      )
  | inr q ↦
      let m' = rw q at m in
      let same : record w { progress = tell i (some false) w.progress } ≡ w' = cc in
      (false, sym (ap (λ (v : Writing). v.progress) same))
]

-- The states up to a block are those of written blocks, the k others are pending, and the totals are
-- those of the blocks so far.
record Recorded (block_size k : ℕ) (fs : List BlockState) (p : WriteProgress) : Type 0 where
  pub states : p.block_states ≡ fs ++ replicate k pending
  pub size : p.block_size ≡ block_size
  pub read : p.bytes_read_total ≡ length fs * block_size
  pub wrote : p.bytes_written_total ≡ count_where is_written fs * block_size

abbrev IsDone : BlockState → Type 0
IsDone s =
    (is_written s ≡ true × is_up_to_date s ≡ false)
    ⊎ (is_written s ≡ false × is_up_to_date s ≡ true)

abbrev state_of : Bool → BlockState
state_of true = written
state_of false = up_to_date

state_of-IsDone : (dirty : Bool) → IsDone (state_of dirty)
state_of-IsDone true = inl (refl, refl)
state_of-IsDone false = inr (refl, refl)

-- The progress after one more block.
abbrev recorded : Bool → ℕ → List BlockState → WriteProgress → WriteProgress
recorded dirty k fs p = record p {
  block_states = fs ++ (state_of dirty ∷ replicate k pending);
  bytes_read_total = p.bytes_read_total + p.block_size;
  bytes_written_total =
      if dirty then p.bytes_written_total + p.block_size else p.bytes_written_total;
}

module _ (block_size k : ℕ) (fs : List BlockState) (p : WriteProgress)
    (r : Recorded block_size (suc k) fs p) (room : p.bytes_read_total + p.block_size < 2 ^ 64)
    (room' : p.bytes_written_total + p.block_size < 2 ^ 64) where
  one_more :
      (n m : ℕ) {total : ℕ}
      → total ≡ n * block_size
      → m ≡ n + 1
      → total + p.block_size ≡ m * block_size
  one_more n m h e =
      let more : m ≡ suc n = omega arith in
      omega (arith, ap (λ (k : ℕ). k * block_size) more, suc-mul n block_size, r.size)

  dirty_recorded :
      record_all record_cluster (told_of (length fs) true) p ≡ ok (recorded true k fs p)
  unfolding record_all record_cluster write_state count_write
  dirty_recorded =
      rw
        (
          r.states,
          set_state-middle fs (replicate k pending) writing pending,
          set_state-middle fs (replicate k pending) written writing,
          add_u64-fits p.bytes_read_total p.block_size room,
          add_u64-fits p.bytes_written_total p.block_size room',
        )
        refl

  clean_recorded :
      record_all record_cluster (told_of (length fs) false) p ≡ ok (recorded false k fs p)
  unfolding record_all record_cluster write_state count_write
  clean_recorded =
      rw
        (
          r.states,
          set_state-middle fs (replicate k pending) up_to_date pending,
          add_u64-fits p.bytes_read_total p.block_size room,
        )
        refl

  block_recorded :
      (dirty : Bool)
      → record_all record_cluster (told_of (length fs) dirty) p ≡ ok (recorded dirty k fs p)
  block_recorded true = dirty_recorded
  block_recorded false = clean_recorded

  recorded-Recorded :
      (dirty : Bool) → Recorded block_size k (fs ++ state_of dirty ∷ []) (recorded dirty k fs p)
  unfolding count_where
  recorded-Recorded true = record {
    states = sym (append_assoc fs (written ∷ []) (replicate k pending));
    size = r.size;
    read =
        one_more (length fs) (length (fs ++ written ∷ [])) r.read (length-append fs (written ∷ []));
    wrote =
        one_more (count_where is_written fs) (count_where is_written (fs ++ written ∷ [])) r.wrote
          (count_where-append is_written fs (written ∷ []));
  }
  recorded-Recorded false = record {
    states = sym (append_assoc fs (up_to_date ∷ []) (replicate k pending));
    size = r.size;
    read =
        one_more (length fs) (length (fs ++ up_to_date ∷ [])) r.read
          (length-append fs (up_to_date ∷ []));
    wrote =
        r.wrote
        ∙ ap (λ (n : ℕ). n * block_size)
            (sym (count_where-append is_written fs (up_to_date ∷ []) ∙ omega arith));
  }

-- From a block on, the rest of the entries is recorded.
entries-Recorded :
    (c : Crates) (h : ProtectedHeader) (ordinals : OrdinalMap) (image : List ℕ)
    (es : List DigestTableEntry) (fs : List BlockState) (block_size : ℕ) (w w' : Writing)
    (start p : WriteProgress)
    → write_entries c h ordinals image (length fs) es w ≡ ok w'
    → All IsDone fs
    → record_all record_cluster w.progress start ≡ ok p
    → Recorded block_size (length es) fs p
    → (length fs + length es) * block_size < 2 ^ 64
    → (p' : WriteProgress) × (fs' : List BlockState) × (record_all record_cluster w'.progress start
        ≡ ok p')
      × Recorded block_size 0 fs' p'
      × All IsDone fs'
      × (length fs' ≡ length fs + length es)
unfolding write_entries
entries-Recorded c h ordinals image [] fs block_size w w' start p m f told r room =
    let same : w ≡ w' = cc in
    (
      p,
      fs,
      ap (λ (v : Writing). record_all record_cluster v.progress start) (sym same) ∙ told,
      r,
      f,
      omega arith,
    )
entries-Recorded c h ordinals image (e ∷ es) fs block_size w w' start p m f told r room =
    let step = bind-eq-ok (write_entry c h ordinals image (length fs) e w) _ m in
    let w1 = step.0 in
    let tells = write_entry_tells c h ordinals image (length fs) e w w1 step.1 in
    let dirty = tells.0 in
    let fs1 = fs ++ state_of dirty ∷ [] in
    let p1 = recorded dirty (length es) fs p in
    let fs1_long : length fs1 ≡ length fs + 1 = length-append fs (state_of dirty ∷ []) in
    let written_less : count_where is_written fs * block_size ≤ length fs * block_size =
      mul-le-mul_right block_size (count_where-le is_written fs) in
    let some_left : length fs * block_size + block_size
        ≤ (length fs + length (e ∷ es)) * block_size =
      omega (
        arith,
        suc-mul (length fs) block_size,
        mul-le-mul_right {m = suc (length fs)} {n = length fs + length (e ∷ es)} block_size
            (omega arith),
      ) in
    let room1 : p.bytes_read_total + p.block_size < 2 ^ 64 = omega (arith, r.read, r.size) in
    let room2 : p.bytes_written_total + p.block_size < 2 ^ 64 = omega (arith, r.wrote, r.size) in
    let total : length fs1 + length es ≡ length fs + length (e ∷ es) = omega (arith, fs1_long) in
    let told1 =
      ap (λ (t : Progress). record_all record_cluster t start) tells.1
      ∙ record_all-append record_cluster w.progress (told_of (length fs) dirty) start p told
      ∙ block_recorded block_size (length es) fs p r room1 room2 dirty in
    let rest =
      entries-Recorded c h ordinals image es fs1 block_size w1 w' start p1
        (ap (λ (i : ℕ). write_entries c h ordinals image i es w1) fs1_long ∙ step.2)
        (All-append IsDone fs (state_of dirty ∷ []) f (state_of-IsDone dirty, tt)) told1
        (recorded-Recorded block_size (length es) fs p r room1 room2 dirty)
        (omega (arith, ap (λ (n : ℕ). n * block_size) total)) in
    (rest.0, rest.1, rest.2, rest.3, rest.4, omega (arith, rest.5, fs1_long))

done-processed : (fs : List BlockState) → All IsDone fs → All (λ s. is_processed s ≡ true) fs
done-processed [] h = tt
done-processed (written ∷ fs) h = (refl, done-processed fs h.1)
done-processed (up_to_date ∷ fs) h = (refl, done-processed fs h.1)
done-processed (pending ∷ fs) (inl q, h) = cc
done-processed (pending ∷ fs) (inr q, h) = cc
done-processed (writing ∷ fs) (inl q, h) = cc
done-processed (writing ∷ fs) (inr q, h) = cc
done-processed (verifying ∷ fs) (inl q, h) = cc
done-processed (verifying ∷ fs) (inr q, h) = cc
done-processed (verified ∷ fs) (inl q, h) = cc
done-processed (verified ∷ fs) (inr q, h) = cc
done-processed (failed ∷ fs) (inl q, h) = cc
done-processed (failed ∷ fs) (inr q, h) = cc

module _ (c : Crates) (image : List ℕ) (h : ImageHandle) (dest : Dest) (protected : ProtectedHeader)
    (table : DigestTable) (w : Writing) where
  all-Recorded :
      h.protected_header ≡ some protected
      → h.digest_table ≡ some table
      → write c image h dest ≡ ok w
      → length table.digest_table * protected.block_size < 2 ^ 64
      → (p : WriteProgress) × (fs : List BlockState) × (record_all record_cluster w.progress
            (new_progress (length table.digest_table) protected.block_size)
          ≡ ok p)
        × Recorded protected.block_size 0 fs p
        × All IsDone fs
        × (length fs ≡ length table.digest_table)
  unfolding write new_progress count_where record_all
  all-Recorded hp ht m room =
      let run = rw (hp, ht) at m in
      let n = length table.digest_table in
      let all =
        entries-Recorded c protected _ image table.digest_table [] protected.block_size _ w
          (new_progress n protected.block_size) (new_progress n protected.block_size) run tt refl
          (record { states = refl; size = refl; read = omega arith; wrote = omega arith })
          (omega (arith, ap (λ (k : ℕ). k * protected.block_size) (zero-add n))) in
      (all.0, all.1, all.2, all.3, all.4, omega (arith, all.5))

  -- When `write` has gone through a loaded image whose header counts the blocks of its digest table, the
  -- progress that its calls have recorded is complete: no call panics, every block counts as processed,
  -- each as written or as up to date, and the totals are those of the blocks read and written. The total
  -- must fit 64 bits.
  pub record_cluster_complete :
      h.protected_header ≡ some protected
      → h.digest_table ≡ some table
      → protected.cluster_count ≡ length table.digest_table
      → write c image h dest ≡ ok w
      → length table.digest_table * protected.block_size < 2 ^ 64
      → (p : WriteProgress) × (record_all record_cluster w.progress
            (new_progress protected.cluster_count protected.block_size)
          ≡ ok p)
        × (blocks_processed p ≡ protected.cluster_count)
        × (blocks_written p + blocks_up_to_date p ≡ protected.cluster_count)
        × (p.bytes_read_total ≡ protected.cluster_count * protected.block_size)
        × (p.bytes_written_total ≡ blocks_written p * protected.block_size)
  unfolding blocks_processed blocks_written blocks_up_to_date
  record_cluster_complete hp ht counted m room =
      let all = all-Recorded hp ht m room in
      let p = all.0 in
      let fs = all.1 in
      let states : p.block_states ≡ fs = all.3.states ∙ append-nil fs in
      let long : length fs ≡ protected.cluster_count = omega (arith, all.5, counted) in
      (
        p,
        rw counted (all.2),
        rw states (count_where_all is_processed fs (done-processed fs all.4) ∙ long),
        rw states (count_where_either is_written is_up_to_date fs all.4 ∙ long),
        all.3.read ∙ ap (λ (n : ℕ). n * protected.block_size) long,
        all.3.wrote
            ∙ ap (λ (t : List BlockState). count_where is_written t * protected.block_size)
                (sym states),
      )
