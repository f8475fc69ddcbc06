-- ===== src/Gpt/Fixup/Chosen.antt =====
-- The partition that `extend_last_partition` chooses, and the entries around it.
use goldboot.Base.{
  ◌∙◌, ◌++◌, true, false, subst, ℕ, zero, suc, ◌+◌, ◌*◌, ◌≤◌, ◌<◌, List, [], ◌∷◌, drop, slice, leb,
  ◌==◌, map, Option, none, some, ok, bind-eq-ok, length-take, All, ◌≡◌, refl, ap, inl, inr, arith,
  Bool-cases,
}
use goldboot.Gpt.Entry.{PartitionEntry, is_used, parse_entry}
use goldboot.Gpt.Table.{parse_entries, used_entries}
use goldboot.Gpt.Fixup.{later_of, last_partition}
use goldboot.Gpt.Fixup.Entries.{grow, parse_entry-ok}

-- Ending elsewhere does not make an entry unused.
is_used-grow : (index last : ℕ) (e : PartitionEntry) → is_used (grow index last e) ≡ is_used e
unfolding is_used
is_used-grow index last e = elim (Bool-cases (e.index == index)) [
  | inl q ↦ rw q refl
  | inr q ↦ rw q refl
]

pub used_entries-grow :
    (index last : ℕ) (es : List PartitionEntry)
    → used_entries (map (grow index last) es) ≡ map (grow index last) (used_entries es)
unfolding used_entries
used_entries-grow index last [] = refl
used_entries-grow index last (e ∷ es) =
    let rest = used_entries-grow index last es in
    let same = is_used-grow index last e in
    elim (Bool-cases (is_used e)) [
      | inl q ↦ rw (same, q) (ap (λ (t : List PartitionEntry). grow index last e ∷ t) rest)
      | inr q ↦ rw (same, q) rest
    ]

abbrev pub IsNumbered : ℕ → ℕ → PartitionEntry → Type 0
IsNumbered i n e = (i < e.index) × (e.index ≤ i + n)

widen :
    (i n : ℕ) (es : List PartitionEntry)
    → All (IsNumbered (suc i) n) es
    → All (IsNumbered i (suc n)) es
widen i n [] h = tt
widen i n (e ∷ es) h = ((omega (arith, h.0.0), omega (arith, h.0.1)), widen i n es h.1)

pub parse_entries-IsNumbered :
    (n s i : ℕ) (raw : List ℕ) (all : List PartitionEntry)
    → parse_entries n s i raw ≡ ok all
    → All (IsNumbered i n) all
unfolding parse_entries
parse_entries-IsNumbered zero s i raw all h =
    let none_left : [] ≡ all = cc in subst (All (IsNumbered i 0)) none_left tt
parse_entries-IsNumbered (suc n) s i raw all h =
    let first = bind-eq-ok (parse_entry (suc i) (slice (i * s) s raw)) _ h in
    let others = bind-eq-ok (parse_entries n s (suc i) raw) _ first.2 in
    let joined : first.0 ∷ others.0 ≡ all = let last = others.2 in cc in
    let number : suc i ≡ first.0.index =
      ap (λ (e : PartitionEntry). e.index)
        (parse_entry-ok (suc i) (slice (i * s) s raw) first.0 first.1).1 in
    subst (All (IsNumbered i (suc n))) joined (
      (omega (arith, number), omega (arith, number)),
      widen i n others.0 (parse_entries-IsNumbered n s (suc i) raw others.0 others.1),
    )

-- Entries that parse are of 56 bytes at least.
pub parse_entries_large :
    (n s i : ℕ) (raw : List ℕ) (all : List PartitionEntry)
    → 0 < n
    → parse_entries n s i raw ≡ ok all
    → 56 ≤ s
unfolding parse_entries
parse_entries_large zero s i raw all some_left h = absurd (omega arith)
parse_entries_large (suc n) s i raw all some_left h =
    let first = bind-eq-ok (parse_entry (suc i) (slice (i * s) s raw)) _ h in
    omega (
      arith,
      (parse_entry-ok (suc i) (slice (i * s) s raw) first.0 first.1).0,
      length-take s (drop (i * s) raw),
    )

module _ {ℓ} (P : PartitionEntry → Type ℓ) where
  used-All : (es : List PartitionEntry) → All P es → All P (used_entries es)
  unfolding used_entries
  used-All [] h = tt
  used-All (e ∷ es) h = elim (Bool-cases (is_used e)) [
    | inl q ↦ rw q (h.0, used-All es h.1)
    | inr q ↦ rw q (used-All es h.1)
  ]

  later_of-either :
      (e : PartitionEntry) (o : Option PartitionEntry)
      → P e
      → ((t : PartitionEntry) → o ≡ some t → P t)
      → P (later_of e o)
  unfolding later_of
  later_of-either e none h g = h
  later_of-either e (some t) h g = elim (Bool-cases (leb e.first_lba t.first_lba)) [
    | inl q ↦ rw q (g t refl)
    | inr q ↦ rw q h
  ]

  last-All :
      (es : List PartitionEntry) (t : PartitionEntry) → All P es → last_partition es ≡ some t → P t
  unfolding last_partition
  last-All [] t h m = cc
  last-All (e ∷ es) t h m =
      let chosen : later_of e (last_partition es) ≡ t = cc in
      subst P chosen (later_of-either e (last_partition es) h.0 (λ u. last-All es u h.1))

  pub last_partition-used :
      (all : List PartitionEntry) (t : PartitionEntry)
      → All P all
      → last_partition (used_entries all) ≡ some t
      → P t
  last_partition-used all t h m = last-All (used_entries all) t (used-All all h) m

-- The entry that starts last, and the last of them if there are several.
pub record IsTrailing (target : PartitionEntry) (entries : List PartitionEntry) : Type 0 where
  pub before : List PartitionEntry
  pub after : List PartitionEntry
  pub parts : entries ≡ before ++ target ∷ after
  pub earlier : All (λ e. e.first_lba ≤ target.first_lba) before
  pub later : All (λ e. e.first_lba < target.first_lba) after

-- No entry behind the target replaces it.
kept_target :
    (target : PartitionEntry) (o : Option PartitionEntry)
    → ((t : PartitionEntry) → o ≡ some t → t.first_lba < target.first_lba)
    → later_of target o ≡ target
unfolding later_of
kept_target target none h = refl
kept_target target (some t) h =
    let less = h t refl in
    let no : leb target.first_lba t.first_lba ≡ false = ground arith in rw no refl

last_at :
    (target : PartitionEntry) (before after : List PartitionEntry)
    → All (λ e. e.first_lba ≤ target.first_lba) before
    → All (λ e. e.first_lba < target.first_lba) after
    → last_partition (before ++ target ∷ after) ≡ some target
unfolding last_partition later_of
last_at target [] after h h' = ap some (
    kept_target target (last_partition after)
      (λ t. last-All (λ e. e.first_lba < target.first_lba) after t h'))
last_at target (e ∷ before) after h h' =
    let yes : leb e.first_lba target.first_lba ≡ true = ground (arith, h.0) in
    rw (last_at target before after h.1 h', yes) refl

pub last_partition-IsTrailing :
    (target : PartitionEntry) (entries : List PartitionEntry)
    → IsTrailing target entries
    → last_partition entries ≡ some target
last_partition-IsTrailing target entries t =
    ap last_partition t.parts ∙ last_at target t.before t.after t.earlier t.later
