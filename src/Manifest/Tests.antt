-- ===== src/Manifest/Tests.antt =====
-- A concrete manifest, and a section with a byte behind it.
use goldboot.Base.{◌↔◌, ◌≤◌, ◌≡◌, true, [], ◌∷◌, ◌++◌, replicate, arith, ok}
use goldboot.Manifest.{
  ManifestBlob, read_length_prefixed, write_length_prefixed, read_from, write_to,
}
use goldboot.Manifest.RoundTrip.{read_from-write_to, read_length_prefixed_iff}

abbrev manifest : ManifestBlob
manifest = record {
  headers_encrypted = true;
  primary_bytes = 1 ∷ 2 ∷ 3 ∷ [];
  protected_bytes = [];
  directory_bytes = replicate 9 4;
  digest_table_bytes = 5 ∷ [];
}

read_from-write_to_example : read_from (write_to manifest ++ (6 ∷ [])) ≡ ok (manifest, 6 ∷ [])
read_from-write_to_example = read_from-write_to manifest (6 ∷ []) (record {
  primary_fits = omega arith;
  protected_fits = omega arith;
  directory_fits = omega arith;
  digest_table_fits = omega arith;
})

read_length_prefixed_iff_example :
    (read_length_prefixed (0 ∷ 0 ∷ 0 ∷ 2 ∷ 7 ∷ 8 ∷ 9 ∷ []) ≡ ok (7 ∷ 8 ∷ [], 9 ∷ [])) ↔ (
      (2 ≤ 33554432)
      × (0 ∷ 0 ∷ 0 ∷ 2 ∷ 7 ∷ 8 ∷ 9 ∷ [] ≡ write_length_prefixed (7 ∷ 8 ∷ []) ++ (9 ∷ [])))
read_length_prefixed_iff_example =
    read_length_prefixed_iff (0 ∷ 0 ∷ 0 ∷ 2 ∷ 7 ∷ 8 ∷ 9 ∷ []) (7 ∷ 8 ∷ []) (9 ∷ []) (
      omega arith,
      (omega arith, (omega arith, (omega arith, (omega arith, (omega arith, (omega arith, tt)))))),
    )
