-- ===== src/Apply/Write.antt =====
-- `ImageHandle::write`.
use goldboot.Base.{
  ℕ, ◌+◌, Bool, true, false, List, [], ◌∷◌, ◌++◌, Option, none, some, drop, bytes_eq, not,
  if◌then◌else◌, Result, ok, bind,
}
use goldboot.Crates.{Crates}
use goldboot.Format.{ProtectedHeader, DigestTableEntry}
use goldboot.Format.Read.{read_cluster}
use goldboot.Handle.{ImageHandle, loaded}
use goldboot.Apply.Target.{Dest, truncate, extend, put, block_hash}
use goldboot.Apply.Ordinals.{OrdinalMap, ordinal, build_cluster_ordinal_map}
use goldboot.Apply.Decode.{decode_cluster}

-- The calls of the progress callback: the index and what is told of it.
abbrev pub Progress : Type 0
Progress = List (ℕ × Option Bool)

pub record Writing : Type 0 where
  pub dest : Dest
  pub progress : Progress

abbrev pub tell : ℕ → Option Bool → Progress → Progress
tell i state told = told ++ (i, state) ∷ []

-- The cluster of an entry, decoded.
unfoldable pub fetch_block :
    Crates → ProtectedHeader → OrdinalMap → List ℕ → DigestTableEntry → Result (List ℕ)
fetch_block c p ordinals image e =
    bind (read_cluster (drop e.cluster_offset image))
      λ (cluster, _). decode_cluster c p (ordinal e.cluster_offset ordinals) cluster.bytes

-- Whether the block on the disk differs from the entry's.
unfoldable pub is_dirty : Crates → ProtectedHeader → DigestTableEntry → Dest → Bool
is_dirty c p e d = not (bytes_eq (block_hash c p.block_size e.block_offset d) e.digest)

unfoldable pub write_entry :
    Crates → ProtectedHeader → OrdinalMap → List ℕ → ℕ → DigestTableEntry → Writing → Result Writing
write_entry c p ordinals image i e w =
    if is_dirty c p e w.dest
    then (bind (fetch_block c p ordinals image e) λ block.
        bind (put e.block_offset block w.dest) λ dest.
          ok (record w { dest = dest; progress = tell i (some true) (tell i none w.progress) }))
    else ok (record w { progress = tell i (some false) w.progress })

unfoldable pub write_entries :
    Crates
    → ProtectedHeader
    → OrdinalMap
    → List ℕ
    → ℕ
    → List DigestTableEntry
    → Writing
    → Result Writing
write_entries c p ordinals image i [] w = ok w
write_entries c p ordinals image i (e ∷ es) w =
    bind (write_entry c p ordinals image i e w) λ w'. write_entries c p ordinals image (i + 1) es w'

-- `image` is the file at the handle's path: with `preload` it is read whole, and else as needed.
unfoldable pub write : Crates → List ℕ → ImageHandle → Dest → Result Writing
write c image h dest = bind (loaded h.protected_header) λ protected.
    bind (loaded h.digest_table) λ table.
      write_entries c protected (build_cluster_ordinal_map table.digest_table) image 0
        table.digest_table
        (record { dest = extend h.primary_header.size (truncate dest); progress = [] })
