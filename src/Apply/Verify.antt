-- ===== src/Apply/Verify.antt =====
-- `ImageHandle::verify`.
use goldboot.Base.{ℕ, ◌+◌, Bool, List, [], ◌∷◌, none, some, bytes_eq, Result, ok, bind}
use goldboot.Crates.{Crates}
use goldboot.Format.{ProtectedHeader, DigestTableEntry}
use goldboot.Handle.{ImageHandle, loaded}
use goldboot.Apply.Target.{Dest, block_hash}
use goldboot.Apply.Write.{Progress, tell}

-- Whether the block of an entry is found on the disk.
unfoldable pub matches : Crates → ProtectedHeader → DigestTableEntry → Dest → Bool
matches c p e d = bytes_eq (block_hash c p.block_size e.block_offset d) e.digest

unfoldable pub verify_entries :
    Crates → ProtectedHeader → ℕ → List DigestTableEntry → Dest → Progress → Progress
verify_entries c p i [] d told = told
verify_entries c p i (e ∷ es) d told =
    verify_entries c p (i + 1) es d (tell i (some (matches c p e d)) (tell i none told))

unfoldable pub verify : Crates → ImageHandle → Dest → Result Progress
verify c h dest = bind (loaded h.protected_header) λ protected.
    bind (loaded h.digest_table)
      λ table. ok (verify_entries c protected 0 table.digest_table dest [])
