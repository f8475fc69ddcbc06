-- ===== src/Apply/Stream.antt =====
-- `ImageHandle::stream_write`: the clusters come in file order from a stream, each is decoded once
-- and placed at every block that refers to it.
use goldboot.Base.{
  ℕ, Bool, ◌||◌, ◌++◌, ◌+◌, ◌-◌, ◌*◌, true, false, List, [], ◌∷◌, none, some, length, take, drop,
  of_be, ltb, leb, ◌==◌, if◌then◌else◌, Result, ok, err, bind, read_exact, out_of_order,
  cluster_too_large, short_read,
}
use goldboot.Crates.{Crates}
use goldboot.Format.{PrimaryHeader, ProtectedHeader, DigestTable, DigestTableEntry}
use goldboot.Apply.Target.{Dest, extend, put}
use goldboot.Apply.Ordinals.{ordinal, build_cluster_ordinal_map}
use goldboot.Apply.Decode.{decode_cluster}
use goldboot.Apply.Write.{Writing, tell, is_dirty}

unfoldable pub is_seen : ℕ → List ℕ → Bool
is_seen o [] = false
is_seen o (x ∷ xs) = x == o || is_seen o xs

-- The loop that pushes an offset the first time it is seen.
unfoldable pub unique_from : List ℕ → List DigestTableEntry → List ℕ
unfolding is_seen
unique_from seen [] = seen
unique_from seen (e ∷ es) =
    let next = if is_seen e.cluster_offset seen then seen else seen ++ e.cluster_offset ∷ [] in
    unique_from next es

unfoldable pub unique_offsets : List DigestTableEntry → List ℕ
unfolding unique_from
unique_offsets entries = unique_from [] entries

-- `sort_unstable` on distinct numbers has one result.
unfoldable pub insert_sorted : ℕ → List ℕ → List ℕ
insert_sorted x [] = x ∷ []
insert_sorted x (y ∷ ys) = if leb x y then x ∷ y ∷ ys else y ∷ insert_sorted x ys

unfoldable pub sort : List ℕ → List ℕ
sort [] = []
sort (x ∷ xs) = insert_sorted x (sort xs)

-- `entries_by_offset`: the entries of a cluster with their indices, in order.
unfoldable pub entries_at : ℕ → ℕ → List DigestTableEntry → List (ℕ × DigestTableEntry)
entries_at offset i [] = []
entries_at offset i (e ∷ es) =
    let rest = entries_at offset (i + 1) es in
    if e.cluster_offset == offset then (i, e) ∷ rest else rest

-- The stream and the position in the image file that it has reached.
pub record Streaming : Type 0 where
  pub stream : List ℕ
  pub stream_pos : ℕ
  pub writing : Writing

unfoldable pub place :
    Crates
    → PrimaryHeader
    → ProtectedHeader
    → List ℕ
    → ℕ
    → DigestTableEntry
    → Writing
    → Result Writing
place c primary p plain i e w =
    if is_dirty c p e w.dest
    then (bind (put e.block_offset (take (primary.size - e.block_offset) plain) w.dest) λ dest.
        ok (record w { dest = dest; progress = tell i (some true) (tell i none w.progress) }))
    else ok (record w { progress = tell i (some false) w.progress })

unfoldable pub place_all :
    Crates
    → PrimaryHeader
    → ProtectedHeader
    → List ℕ
    → List (ℕ × DigestTableEntry)
    → Writing
    → Result Writing
place_all c primary p plain [] w = ok w
place_all c primary p plain ((i, e) ∷ rest) w =
    bind (place c primary p plain i e w) λ w'. place_all c primary p plain rest w'

-- `u64::saturating_mul(4)`; a block size of 32 bits never saturates.
abbrev pub max_cluster_bytes : ProtectedHeader → ℕ
max_cluster_bytes p = p.block_size * 4

-- The bytes of the next cluster: skip to its offset, check its size against the cap, and read it.
unfoldable pub next_cluster : ProtectedHeader → ℕ → List ℕ → ℕ → Result (List ℕ × List ℕ × ℕ)
next_cluster p offset stream stream_pos =
    if ltb offset stream_pos
    then err out_of_order
    else (bind (read_exact 4 (drop (offset - stream_pos) stream)) λ (size_bytes, rest).
        let cluster_size = of_be size_bytes in
        if ltb (max_cluster_bytes p) cluster_size
        then err cluster_too_large
        else if ltb (length rest) cluster_size
        then err short_read
        else ok (take cluster_size rest, drop cluster_size rest, offset + 4 + cluster_size))

unfoldable pub stream_cluster :
    Crates
    → PrimaryHeader
    → ProtectedHeader
    → List DigestTableEntry
    → ℕ
    → Streaming
    → Result Streaming
stream_cluster c primary p entries offset s =
    bind (next_cluster p offset s.stream s.stream_pos) λ (bytes, rest, pos).
      bind (decode_cluster c p (ordinal offset (build_cluster_ordinal_map entries)) bytes) λ plain.
        bind (place_all c primary p plain (entries_at offset 0 entries) s.writing)
          λ w. ok (record { stream = rest; stream_pos = pos; writing = w })

unfoldable pub stream_clusters :
    Crates
    → PrimaryHeader
    → ProtectedHeader
    → List DigestTableEntry
    → List ℕ
    → Streaming
    → Result Streaming
stream_clusters c primary p entries [] s = ok s
stream_clusters c primary p entries (offset ∷ offsets) s =
    bind (stream_cluster c primary p entries offset s)
      λ s'. stream_clusters c primary p entries offsets s'

unfoldable pub stream_write :
    Crates → PrimaryHeader → ProtectedHeader → DigestTable → List ℕ → ℕ → Dest → Result Streaming
stream_write c primary p table cluster_stream cluster_data_start_offset dest =
    stream_clusters c primary p table.digest_table (sort (unique_offsets table.digest_table))
      (record {
        stream = cluster_stream;
        stream_pos = cluster_data_start_offset;
        writing = record { dest = extend primary.size dest; progress = [] };
      })
