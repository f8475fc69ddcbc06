-- ===== src/Apply/Target.antt =====
-- The destination: a regular file, which grows when written past its end, or a block device, whose
-- size is fixed.
use goldboot.Base.{
  ℕ, ◌+◌, ◌&&◌, Bool, List, [], length, slice, ltb, if◌then◌else◌, pad_to, write_at, replicate,
  Result, ok, err, write_failed,
}
use goldboot.Crates.{Crates}

pub record Dest : Type 0 where
  pub is_file : Bool
  pub content : List ℕ

-- `OpenOptions::truncate(true)` empties a regular file and leaves a device as it is.
unfoldable pub truncate : Dest → Dest
truncate d = if d.is_file then record d { content = [] } else d

-- `set_len(size)` on a regular file that is shorter.
unfoldable pub extend : ℕ → Dest → Dest
extend size d =
    if d.is_file
    then (if ltb (length d.content) size then record d { content = pad_to size d.content } else d)
    else d

-- `seek(Start(off))` and `write_all(bytes)`.
unfoldable pub put : ℕ → List ℕ → Dest → Result Dest
put off bytes d =
    if d.is_file
    then ok (record d { content = write_at off bytes d.content })
    else if ltb (length d.content) (off + length bytes)
    then err write_failed
    else ok (record d { content = write_at off bytes d.content })

abbrev pub zero_hash : List ℕ
zero_hash = replicate 32 0

-- The hash of the block at an offset, or zeros where a whole block cannot be read; an empty block is
-- read anywhere.
unfoldable pub block_hash : Crates → ℕ → ℕ → Dest → List ℕ
block_hash c block_size off d =
    if ltb (length d.content) (off + block_size) && ltb 0 block_size
    then zero_hash
    else c.sha256 (slice off block_size d.content)
