-- ===== src/Gui/Progress/Verifies.antt =====
-- The progress of `ImageHandle::verify` as the screens count it.
use goldboot.Base.{
  ℕ, suc, ◌+◌, ◌*◌, ◌^◌, ◌<◌, Bool, true, false, List, [], ◌∷◌, ◌++◌, append_assoc, none, some,
  length, length-append, length-map, map, if◌then◌else◌, ok, All, ◌≡◌, refl, sym, ap, ◌∙◌, ◌⊎◌, inl,
  inr, arith, Bool-cases,
}
use native.Mathlib.Nat.{suc-mul}
use goldboot.Crates.{Crates}
use goldboot.Format.{ProtectedHeader, DigestTable, DigestTableEntry}
use goldboot.Handle.{ImageHandle}
use goldboot.Apply.{Dest, Progress, tell, verify, verify_entries, matches}
use goldboot.Gui.Progress.{
  BlockState, verified, failed, WriteProgress, verify_state, count_verify, record_verify_cluster,
  record_all, is_verified, is_failed, reset_states, reset_for_verify, blocks_verified,
  blocks_failed,
}
use goldboot.Gui.Progress.Counts.{
  set_state-middle, add_u64-fits, record_all-append, count_where_either,
}

-- The state that a block ends in.
abbrev pub verdict : Crates → ProtectedHeader → Dest → DigestTableEntry → BlockState
verdict c h d e = if matches c h e d then verified else failed

verdict-state : (b : Bool) → verify_state (some b) ≡ (if b then verified else failed)
unfolding verify_state
verdict-state true = refl
verdict-state false = refl

-- The two calls for a block.
block_verified :
    (b : Bool) (fs ts : List BlockState) (t : BlockState) (p : WriteProgress)
    → p.block_states ≡ fs ++ (t ∷ ts)
    → p.bytes_read_total + p.block_size < 2 ^ 64
    → record_all record_verify_cluster ((length fs, none) ∷ (length fs, some b) ∷ []) p
      ≡ ok (record p {
        block_states = fs ++ ((if b then verified else failed) ∷ ts);
        bytes_read_total = p.bytes_read_total + p.block_size;
      })
unfolding record_all record_verify_cluster count_verify
block_verified b fs ts t p states room =
    rw
      (
        states,
        set_state-middle fs ts (verify_state none) t,
        set_state-middle fs ts (verify_state (some b)) (verify_state none),
        add_u64-fits p.bytes_read_total p.block_size room,
        verdict-state b,
      )
      refl

verifies_recorded :
    (c : Crates) (h : ProtectedHeader) (d : Dest) (es : List DigestTableEntry)
    (fs ts : List BlockState) (told : Progress) (start p : WriteProgress)
    → record_all record_verify_cluster told start ≡ ok p
    → p.block_states ≡ fs ++ ts
    → length ts ≡ length es
    → p.bytes_read_total + length es * p.block_size < 2 ^ 64
    → record_all record_verify_cluster (verify_entries c h (length fs) es d told) start
      ≡ ok (record p {
        block_states = fs ++ map (verdict c h d) es;
        bytes_read_total = p.bytes_read_total + length es * p.block_size;
      })
unfolding verify_entries
verifies_recorded c h d [] fs [] told start p run states long room =
    let total : p.bytes_read_total ≡ p.bytes_read_total + 0 * p.block_size = omega arith in
    run ∙ λ i. ok (record p { block_states = states i; bytes_read_total = total i })
verifies_recorded c h d [] fs (t ∷ ts) told start p run states long room = absurd (omega arith)
verifies_recorded c h d (e ∷ es) fs [] told start p run states long room = absurd (omega arith)
verifies_recorded c h d (e ∷ es) fs (t ∷ ts) told start p run states long room =
    let s = verdict c h d e in
    let fs1 = fs ++ s ∷ [] in
    let size = p.block_size in
    let p1 = record p {
      block_states = fs ++ (s ∷ ts);
      bytes_read_total = p.bytes_read_total + p.block_size;
    } in
    let more = suc-mul (length es) size in
    let two : Progress = (length fs, none) ∷ (length fs, some (matches c h e d)) ∷ [] in
    let told1 = tell (length fs) (some (matches c h e d)) (tell (length fs) none told) in
    let run1 : record_all record_verify_cluster told1 start ≡ ok p1 =
      ap (λ (u : Progress). record_all record_verify_cluster u start)
        (append_assoc told ((length fs, none) ∷ []) ((length fs, some (matches c h e d)) ∷ []))
      ∙ record_all-append record_verify_cluster told two start p run
      ∙ block_verified (matches c h e d) fs ts t p states (omega arith) in
    let fs1_long : length fs1 ≡ length fs + 1 = length-append fs (s ∷ []) in
    let rest =
      verifies_recorded c h d es fs1 ts told1 start p1 run1 (sym (append_assoc fs (s ∷ []) ts))
        (omega arith) (omega arith) in
    let total : p.bytes_read_total + size + length es * size
        ≡ p.bytes_read_total + suc (length es) * size =
      omega arith in
    ap (λ (i : ℕ). record_all record_verify_cluster (verify_entries c h i es d told1) start)
      (sym fs1_long)
    ∙ rest
    ∙ λ i. ok (record p {
      block_states = append_assoc fs (s ∷ []) (map (verdict c h d) es) i;
      bytes_read_total = total i;
    })

length-reset_states : (ss : List BlockState) → length (reset_states ss) ≡ length ss
unfolding reset_states
length-reset_states [] = refl
length-reset_states (s ∷ ss) = ap suc (length-reset_states ss)

either_verdict :
    (c : Crates) (h : ProtectedHeader) (d : Dest) (es : List DigestTableEntry)
    → All
        (λ s.
          (is_verified s ≡ true × is_failed s ≡ false)
          ⊎ (is_verified s ≡ false × is_failed s ≡ true))
        (map (verdict c h d) es)
either_verdict c h d [] = tt
either_verdict c h d (e ∷ es) = elim (Bool-cases (matches c h e d)) [
  | inl q ↦ rw q (inl (refl, refl), either_verdict c h d es)
  | inr q ↦ rw q (inr (refl, refl), either_verdict c h d es)
]

-- A verification that starts on a progress with a state for each block of the table, as `start_verify`
-- does after a write, runs without a panic, and leaves each block verified or failed, as its hash on the
-- disk matches the table or not; the bytes read are added to those of before. The total must fit 64
-- bits.
pub record_verify_cluster-verdicts :
    (c : Crates) (h : ImageHandle) (d : Dest) (protected : ProtectedHeader) (table : DigestTable)
    (p : WriteProgress)
    → h.protected_header ≡ some protected
    → h.digest_table ≡ some table
    → length p.block_states ≡ length table.digest_table
    → p.bytes_read_total + length table.digest_table * p.block_size < 2 ^ 64
    → (told : Progress) × (after : WriteProgress) × (verify c h d ≡ ok told)
      × (record_all record_verify_cluster told (reset_for_verify p) ≡ ok after)
      × (after.block_states ≡ map (verdict c protected d) table.digest_table)
      × (blocks_verified after + blocks_failed after ≡ length table.digest_table)
      × (after.bytes_read_total ≡ p.bytes_read_total + length table.digest_table * p.block_size)
unfolding verify reset_for_verify record_all blocks_verified blocks_failed
record_verify_cluster-verdicts c h d protected table p hp ht long room =
    let es = table.digest_table in
    let told = verify_entries c protected 0 es d [] in
    let start = reset_for_verify p in
    (
      told,
      record start {
        block_states = map (verdict c protected d) es;
        bytes_read_total = p.bytes_read_total + length es * p.block_size;
      },
      rw (hp, ht) refl,
      verifies_recorded c protected d es [] (reset_states p.block_states) [] start start refl refl
          (length-reset_states p.block_states ∙ long) room,
      refl,
      count_where_either is_verified is_failed (map (verdict c protected d) es)
            (either_verdict c protected d es)
          ∙ length-map (verdict c protected d) es,
      refl,
    )
