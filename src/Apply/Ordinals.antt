-- ===== src/Apply/Ordinals.antt =====
-- `build_cluster_ordinal_map`: the position of each distinct cluster offset in first-seen order.
use goldboot.Base.{ℕ, List, [], ◌∷◌, ◌++◌, Option, none, some, length, ◌==◌, if◌then◌else◌}
use goldboot.Format.{DigestTableEntry}

-- A `HashMap<u64, usize>` is the list of its pairs, in the order of insertion.
abbrev pub OrdinalMap : Type 0
OrdinalMap = List (ℕ × ℕ)

unfoldable pub ordinal : ℕ → OrdinalMap → Option ℕ
ordinal offset [] = none
ordinal offset ((k, v) ∷ m) = if k == offset then some v else ordinal offset m

-- `map.entry(offset).or_insert(index)`.
unfoldable pub or_insert : ℕ → ℕ → OrdinalMap → OrdinalMap
or_insert offset index m = elim (ordinal offset m) [ some v ↦ m | none ↦ m ++ (offset, index) ∷ [] ]

unfoldable pub ordinals_from : OrdinalMap → List DigestTableEntry → OrdinalMap
ordinals_from m [] = m
ordinals_from m (e ∷ es) = ordinals_from (or_insert e.cluster_offset (length m) m) es

unfoldable pub build_cluster_ordinal_map : List DigestTableEntry → OrdinalMap
build_cluster_ordinal_map entries = ordinals_from [] entries
