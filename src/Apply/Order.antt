-- ===== src/Apply/Order.antt =====
-- The ordinal map numbers the distinct cluster offsets in first-seen order.
use goldboot.Base.{
  subst, true, false, if◌then◌else◌, ℕ, suc, ◌+◌, ◌<◌, ◌≡◌, refl, sym, ap, ◌∙◌, inl, inr, List, [],
  ◌∷◌, ◌++◌, none, some, length, get_elem?, arith, ◌==◌, Option-cases, Bool-cases, All,
}
use native.Mathlib.Nat.{zero-add}
use goldboot.Format.{DigestTableEntry}
use goldboot.Apply.Ordinals.{
  OrdinalMap, ordinal, or_insert, ordinals_from, build_cluster_ordinal_map,
}
use goldboot.Apply.Distinct.{AreDistinct, unique_from-AreDistinct}
use goldboot.Apply.Stream.{is_seen, unique_from, unique_offsets}

abbrev keys : OrdinalMap → List ℕ
keys [] = []
keys ((k, v) ∷ m) = k ∷ keys m

-- The map is a numbering: its values count up from `n`.
abbrev Counts : ℕ → OrdinalMap → Type 0
Counts n [] = Unit
Counts n ((k, v) ∷ m) = (v ≡ n) × Counts (suc n) m

Counts-append : (n k : ℕ) (m : OrdinalMap) → Counts n m → Counts n (m ++ (k, n + length m) ∷ [])
Counts-append n k [] h = (omega arith, tt)
Counts-append n k ((j, v) ∷ m) h =
    let shifted : n + suc (length m) ≡ suc n + length m = omega arith in
    rw shifted (h.0, Counts-append (suc n) k m h.1)

ordinal_prefix : (o i : ℕ) (m m' : OrdinalMap) → ordinal o m ≡ some i → ordinal o (m ++ m') ≡ some i
unfolding ordinal
ordinal_prefix o i [] m' e = cc
ordinal_prefix o i ((j, v) ∷ m) m' e = ground (arith, ordinal_prefix o i m m')

ordinal_new_at :
    (o n : ℕ) (m : OrdinalMap) → ordinal o m ≡ none → ordinal o (m ++ (o, n) ∷ []) ≡ some n
unfolding ordinal
ordinal_new_at o n [] e = ground arith
ordinal_new_at o n ((j, v) ∷ m) e = ground (arith, ordinal_new_at o n m)

pub ordinal_new :
    (o : ℕ) (m : OrdinalMap)
    → ordinal o m ≡ none
    → ordinal o (m ++ (o, length m) ∷ []) ≡ some (length m)
ordinal_new o m e = ordinal_new_at o (length m) m e

-- A key is found with the position at which the map lists it.
ordinal-get :
    (n o i : ℕ) (m : OrdinalMap)
    → Counts n m
    → ordinal o m ≡ some i
    → (k : ℕ) × (i ≡ n + k) × (get_elem? (keys m) k ≡ some o)
unfolding ordinal
ordinal-get n o i [] h e = cc
ordinal-get n o i ((j, v) ∷ m) h e = elim (Bool-cases (j == o)) [
  | inl q ↦ (0, ground arith, ground arith)
  | inr q ↦
      let (k, shifted, found) = ordinal-get (suc n) o i m h.1 (rw q at e) in
      (suc k, omega arith, found)
]

or_insert-Counts : (o : ℕ) (m : OrdinalMap) → Counts 0 m → Counts 0 (or_insert o (length m) m)
unfolding or_insert
or_insert-Counts o m h = elim (Option-cases (ordinal o m)) [
  | inl e ↦ rw (e, or_insert) (rw (zero-add (length m)) at (Counts-append 0 o m h))
  | inr (i, e) ↦ rw (e, or_insert) h
]

ordinals_from-Counts :
    (m : OrdinalMap) (es : List DigestTableEntry) → Counts 0 m → Counts 0 (ordinals_from m es)
unfolding ordinals_from
ordinals_from-Counts m [] h = h
ordinals_from-Counts m (e ∷ es) h =
    ordinals_from-Counts (or_insert e.cluster_offset (length m) m) es
      (or_insert-Counts e.cluster_offset m h)

ordinal-append :
    (o k i : ℕ) (m : OrdinalMap)
    → ordinal o m ≡ some i
    → ordinal o (m ++ (k, length m) ∷ []) ≡ some i
ordinal-append o k i m e = ordinal_prefix o i m ((k, length m) ∷ []) e

-- What a later insertion finds, an earlier one has fixed.
pub or_insert-keeps :
    (o k i : ℕ) (m : OrdinalMap)
    → ordinal o m ≡ some i
    → ordinal o (or_insert k (length m) m) ≡ some i
unfolding or_insert
or_insert-keeps o k i m e = elim (Option-cases (ordinal k m)) [
  | inl q ↦ rw (q, or_insert) (ordinal-append o k i m e)
  | inr (j, q) ↦ rw (q, or_insert) e
]

or_insert-finds :
    (o : ℕ) (m : OrdinalMap) → (i : ℕ) × (ordinal o (or_insert o (length m) m) ≡ some i)
unfolding or_insert
or_insert-finds o m = elim (Option-cases (ordinal o m)) [
  | inl q ↦ (length m, rw (q, or_insert) (ordinal_new o m q))
  | inr (j, q) ↦ (j, rw (q, or_insert) q)
]

pub ordinals_from-keeps :
    (o i : ℕ) (m : OrdinalMap) (es : List DigestTableEntry)
    → ordinal o m ≡ some i
    → ordinal o (ordinals_from m es) ≡ some i
unfolding ordinals_from
ordinals_from-keeps o i m [] e = e
ordinals_from-keeps o i m (d ∷ es) e =
    ordinals_from-keeps o i (or_insert d.cluster_offset (length m) m) es
      (or_insert-keeps o d.cluster_offset i m e)

-- The keys are the offsets that have been seen.
keys-append : (m : OrdinalMap) (k n : ℕ) → keys (m ++ (k, n) ∷ []) ≡ keys m ++ k ∷ []
keys-append [] k n = refl
keys-append ((j, v) ∷ m) k n = ap (λ (t : List ℕ). j ∷ t) (keys-append m k n)

is_seen-keys_absent : (o : ℕ) (m : OrdinalMap) → ordinal o m ≡ none → is_seen o (keys m) ≡ false
unfolding ordinal is_seen
is_seen-keys_absent o [] e = refl
is_seen-keys_absent o ((j, v) ∷ m) e = elim (Bool-cases (j == o)) [
  | inl q ↦ let no = rw q at e in cc
  | inr q ↦ rw q (is_seen-keys_absent o m (rw q at e))
]

is_seen-keys_present : (o i : ℕ) (m : OrdinalMap) → ordinal o m ≡ some i → is_seen o (keys m) ≡ true
unfolding ordinal is_seen
is_seen-keys_present o i [] e = cc
is_seen-keys_present o i ((j, v) ∷ m) e = elim (Bool-cases (j == o)) [
  | inl q ↦ rw q refl
  | inr q ↦ rw q (is_seen-keys_present o i m (rw q at e))
]

abbrev seen_with : ℕ → List ℕ → List ℕ
seen_with o seen = if is_seen o seen then seen else seen ++ o ∷ []

or_insert-keys : (o : ℕ) (m : OrdinalMap) → keys (or_insert o (length m) m) ≡ seen_with o (keys m)
unfolding or_insert
or_insert-keys o m = elim (Option-cases (ordinal o m)) [
  | inl q ↦ rw (q, or_insert, is_seen-keys_absent o m q) (keys-append m o (length m))
  | inr (i, q) ↦ rw (q, or_insert, is_seen-keys_present o i m q) refl
]

ordinals_from-keys :
    (m : OrdinalMap) (es : List DigestTableEntry)
    → keys (ordinals_from m es) ≡ unique_from (keys m) es
unfolding ordinals_from unique_from
ordinals_from-keys m [] = refl
ordinals_from-keys m (e ∷ es) =
    ordinals_from-keys (or_insert e.cluster_offset (length m) m) es
    ∙ ap (λ (seen : List ℕ). unique_from seen es) (or_insert-keys e.cluster_offset m)

-- An entry whose ordinal is the place of its cluster in a list of offsets.
abbrev pub HasOrdinal : OrdinalMap → List ℕ → DigestTableEntry → Type 0
HasOrdinal m offsets e =
    (k : ℕ) × (ordinal e.cluster_offset m ≡ some k) × (get_elem? offsets k ≡ some e.cluster_offset)

ordinals_from-HasOrdinal :
    (m : OrdinalMap) (es : List DigestTableEntry)
    → Counts 0 m
    → All (HasOrdinal (ordinals_from m es) (keys (ordinals_from m es))) es
unfolding ordinals_from
ordinals_from-HasOrdinal m [] h = tt
ordinals_from-HasOrdinal m (e ∷ es) h =
    let m' = or_insert e.cluster_offset (length m) m in
    let counted = or_insert-Counts e.cluster_offset m h in
    let (i, found) = or_insert-finds e.cluster_offset m in
    let kept = ordinals_from-keeps e.cluster_offset i m' es found in
    let (k, same, listed) =
      ordinal-get 0 e.cluster_offset i (ordinals_from m' es) (ordinals_from-Counts m' es counted)
        kept in
    ((i, kept, rw (same ∙ zero-add k) listed), ordinals_from-HasOrdinal m' es counted)

-- Every entry of the table has an ordinal, and it is the position of the entry's cluster offset in the
-- list of offsets that `stream_write` fills in first-seen order, in which no offset stands twice.
pub build_cluster_ordinal_map-HasOrdinal :
    (es : List DigestTableEntry)
    → All (HasOrdinal (build_cluster_ordinal_map es) (unique_offsets es)) es
      × AreDistinct (unique_offsets es)
unfolding build_cluster_ordinal_map unique_offsets
build_cluster_ordinal_map-HasOrdinal es = (
  subst (λ (offsets : List ℕ). All (HasOrdinal (ordinals_from [] es) offsets) es)
      (ordinals_from-keys [] es) (ordinals_from-HasOrdinal [] es tt),
  unique_from-AreDistinct [] es tt,
)

some_eq : {a b : ℕ} → some a ≡ some b → a ≡ b
some_eq e = cc

-- Two cluster offsets with one ordinal, so with one nonce, are the same offset.
pub ordinal_injective :
    (es : List DigestTableEntry) (o o' k : ℕ)
    → ordinal o (build_cluster_ordinal_map es) ≡ some k
    → ordinal o' (build_cluster_ordinal_map es) ≡ some k
    → o ≡ o'
unfolding build_cluster_ordinal_map
ordinal_injective es o o' k e e' =
    let counted = ordinals_from-Counts [] es tt in
    let (i, same, listed) = ordinal-get 0 o k (ordinals_from [] es) counted e in
    let (j, same', listed') = ordinal-get 0 o' k (ordinals_from [] es) counted e' in
    let one : i ≡ j = omega arith in
    some_eq (sym listed ∙ ap (get_elem? (keys (ordinals_from [] es))) one ∙ listed')

-- An entry at the end of the table is inserted last.
pub ordinals_from-snoc :
    (m : OrdinalMap) (es : List DigestTableEntry) (e : DigestTableEntry)
    → ordinals_from m (es ++ e ∷ [])
      ≡ or_insert e.cluster_offset (length (ordinals_from m es)) (ordinals_from m es)
unfolding ordinals_from
ordinals_from-snoc m [] e = refl
ordinals_from-snoc m (x ∷ es) e = ordinals_from-snoc (or_insert x.cluster_offset (length m) m) es e

ordinal-snoc_other :
    (o k n : ℕ) (m : OrdinalMap) → ordinal o m ≡ none → k < o → ordinal o (m ++ (k, n) ∷ []) ≡ none
unfolding ordinal
ordinal-snoc_other o k n [] e h = ground arith
ordinal-snoc_other o k n ((j, v) ∷ m) e h = ground (arith, ordinal-snoc_other o k n m)

or_insert-other :
    (o k n : ℕ) (m : OrdinalMap) → ordinal o m ≡ none → k < o → ordinal o (or_insert k n m) ≡ none
unfolding or_insert
or_insert-other o k n m e h = elim (Option-cases (ordinal k m)) [
  | inl q ↦ rw (q, or_insert) (ordinal-snoc_other o k n m e h)
  | inr (j, q) ↦ rw (q, or_insert) e
]

-- An offset behind all those of the table is not in the map.
pub ordinals_from-fresh :
    (o : ℕ) (m : OrdinalMap) (es : List DigestTableEntry)
    → ordinal o m ≡ none
    → All (λ e. e.cluster_offset < o) es
    → ordinal o (ordinals_from m es) ≡ none
unfolding ordinals_from
ordinals_from-fresh o m [] h all = h
ordinals_from-fresh o m (e ∷ es) h all =
    ordinals_from-fresh o (or_insert e.cluster_offset (length m) m) es
      (or_insert-other o e.cluster_offset (length m) m h all.0) all.1

pub or_insert_new :
    (o : ℕ) (m : OrdinalMap)
    → ordinal o m ≡ none
    → or_insert o (length m) m ≡ m ++ (o, length m) ∷ []
unfolding or_insert
or_insert_new o m h = rw (or_insert, h) refl

pub or_insert_known : (o n i : ℕ) (m : OrdinalMap) → ordinal o m ≡ some i → or_insert o n m ≡ m
unfolding or_insert
or_insert_known o n i m h = rw (or_insert, h) refl
