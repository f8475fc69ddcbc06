-- ===== src/Qcow/Allocation.antt =====
-- What an L2 table holds: as many entries as fit a cluster, and contents where `is_allocated` says so.
use goldboot.Base.{
  ℕ, ◌≤◌, length-take, length-replicate, ◌/◌, ◌^◌, ◌≡◌, refl, sym, ap, ◌∙◌, Bool, true, false, not,
  ◌&&◌, ◌||◌, List, map, Option, none, some, length, length-map, take, drop, replicate,
  if◌then◌else◌, ◌==◌, arith, Result, ok, err, read_count, read_be, length-read_count, Bool-cases,
  inl, inr,
}
use goldboot.Crates.{Crates, AreLawful}
use goldboot.Qcow.Header.{CompressionType, QcowHeader, cluster_size, l2_entries_per_cluster}
use goldboot.Qcow.Levels.{
  L1Entry, L2Entry, ClusterDescriptor, l2_from_u64, l2_offset, value_of, map_option, read_l2,
  allocated, is_allocated, delivered, descriptor_contents, read_contents,
}

value_of-some {ℓ} :
    {A : Type ℓ} (r : Result (A × List ℕ)) (a : A)
    → value_of r ≡ some a
    → (rest : List ℕ) × (r ≡ ok (a, rest))
value_of-some (ok (x, rest)) a h = (rest, cc)
value_of-some (err e) a h = cc

map_option-some {ℓ κ} :
    {A : Type ℓ} {B : Type κ} (f : A → B) (o : Option A) (b : B)
    → map_option f o ≡ some b
    → (a : A) × (o ≡ some a) × (f a ≡ b)
map_option-some f none b h = cc
map_option-some f (some a) b h = (a, refl, cc)

table_words : List ℕ → ℕ → L1Entry → Option (List ℕ)
table_words file bits x = value_of (read_count (2 ^ bits / 8) (read_be 8) (drop (l2_offset x) file))

-- An L2 table that was read has as many entries as a cluster holds.
pub length-read_l2 :
    (h : QcowHeader) (file : List ℕ) (x : L1Entry) (es : List L2Entry)
    → read_l2 file h.cluster_bits x ≡ some es
    → length es ≡ l2_entries_per_cluster h
unfolding read_l2 l2_entries_per_cluster cluster_size
length-read_l2 h file x es e = elim (Bool-cases (l2_offset x == 0)) [
  | inl q ↦ cc (rw (q, read_l2) at e)
  | inr q ↦
      let read = read_count (2 ^ h.cluster_bits / 8) (read_be 8) (drop (l2_offset x) file) in
      let (ws, found, made) =
        map_option-some (map (λ w. l2_from_u64 w h.cluster_bits)) (value_of read) es
          (rw (q, read_l2) at e) in
      let (rest, ran) = value_of-some read ws found in
      sym (ap length made)
      ∙ length-map (λ w. l2_from_u64 w h.cluster_bits) ws
      ∙ length-read_count (2 ^ h.cluster_bits / 8) (read_be 8) (drop (l2_offset x) file) ws rest ran
]

abbrev pub is_some {ℓ} : {A : Type ℓ} → Option A → Bool
is_some none = false
is_some (some a) = true

standard_agrees :
    (zeroes used : Bool) (o : ℕ) (z d : List ℕ) (found : Option (List ℕ))
    → (if zeroes && used then ok (some z) else if o == 0 then ok none else ok (some d)) ≡ ok found
    → (not (o == 0) || (zeroes && used)) ≡ is_some found
standard_agrees zeroes used o z d none h = elim (Bool-cases (o == 0)) [
  | inl q ↦ ground arith
  | inr q ↦ ground arith
]
standard_agrees zeroes used o z d (some x) h = elim (Bool-cases (o == 0)) [
  | inl q ↦ ground arith
  | inr q ↦ ground arith
]

delivered_agrees :
    (o : Option (List ℕ)) (found : Option (List ℕ)) → delivered o ≡ ok found → true ≡ is_some found
delivered_agrees none found h = cc
delivered_agrees (some x) none h = cc
delivered_agrees (some x) (some y) h = refl

contents_agrees :
    (c : Crates) (file : List ℕ) (size : ℕ) (kind : CompressionType) (used : Bool)
    (d : ClusterDescriptor) (found : Option (List ℕ))
    → descriptor_contents c file size kind used d ≡ ok found
    → allocated used d ≡ is_some found
unfolding descriptor_contents
contents_agrees c file size kind used (ClusterDescriptor.standard d) found h =
    standard_agrees d.all_zeroes used d.host_cluster_offset (replicate size 0)
      (take size (drop d.host_cluster_offset file)) found h
contents_agrees c file size CompressionType.zlib used (ClusterDescriptor.compressed d) found h =
    delivered_agrees _ found h
contents_agrees c file size CompressionType.zstd used (ClusterDescriptor.compressed d) found h =
    delivered_agrees _ found h

-- `read_contents` that succeeds returns contents exactly where `is_allocated` says so.
pub read_contents-is_allocated :
    (c : Crates) (file : List ℕ) (size : ℕ) (kind : CompressionType) (e : L2Entry)
    (found : Option (List ℕ))
    → read_contents c file size kind e ≡ ok found
    → is_allocated e ≡ is_some found
unfolding read_contents is_allocated
read_contents-is_allocated c file size kind e found h =
    contents_agrees c file size kind e.is_used e.cluster_descriptor found h

delivered_short :
    (o : Option (List ℕ)) (out : List ℕ) (n : ℕ)
    → ((bytes : List ℕ) → o ≡ some bytes → length bytes ≤ n)
    → delivered o ≡ ok (some out)
    → length out ≤ n
delivered_short none out n short h = cc
delivered_short (some x) out n short h = short out (cc)

mapped_short :
    (o size : ℕ) (file out : List ℕ)
    → (if o == 0 then ok none else ok (some (take size file))) ≡ ok (some out)
    → length out ≤ size
mapped_short o size file out h = elim (Bool-cases (o == 0)) [
  | inl q ↦ cc (rw q at h)
  | inr q ↦
      let h' : ok (some (take size file)) ≡ ok (some out) = rw q at h in
      let cut : take size file ≡ out = cc in omega (arith, ap length cut, length-take size file)
]

standard_short :
    (zeroes used : Bool) (o size : ℕ) (file out : List ℕ)
    → (if zeroes && used
        then ok (some (replicate size 0))
        else if o == 0
        then ok none
        else ok (some (take size file)))
      ≡ ok (some out)
    → length out ≤ size
standard_short true true o size file out h =
    let whole : replicate size 0 ≡ out = cc in
    omega (arith, ap length whole, length-replicate {A = ℕ} size 0)
standard_short true false o size file out h = mapped_short o size file out h
standard_short false used o size file out h = mapped_short o size file out h

contents_short :
    (c : Crates) (file : List ℕ) (size : ℕ) (kind : CompressionType) (used : Bool)
    (d : ClusterDescriptor) (out : List ℕ)
    → AreLawful c
    → descriptor_contents c file size kind used d ≡ ok (some out)
    → length out ≤ size
unfolding descriptor_contents
contents_short c file size kind used (ClusterDescriptor.standard d) out lawful h =
    standard_short d.all_zeroes used d.host_cluster_offset size (drop d.host_cluster_offset file)
      out h
contents_short c file size CompressionType.zlib used (ClusterDescriptor.compressed d) out lawful h =
    delivered_short _ out size (λ b. lawful.length-zlib_take size _ b) h
contents_short c file size CompressionType.zstd used (ClusterDescriptor.compressed d) out lawful h =
    delivered_short _ out size (λ b. lawful.length-zstd_take size _ b) h

-- `read_contents` returns at most a cluster.
pub length-read_contents :
    (c : Crates) (file : List ℕ) (size : ℕ) (kind : CompressionType) (e : L2Entry) (out : List ℕ)
    → AreLawful c
    → read_contents c file size kind e ≡ ok (some out)
    → length out ≤ size
unfolding read_contents
length-read_contents c file size kind e out lawful h =
    contents_short c file size kind e.is_used e.cluster_descriptor out lawful h
