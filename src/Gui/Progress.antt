-- ===== src/Gui/Progress.antt =====
-- goldboot/src/gui/state.rs, `WriteProgress`: what the write and verify threads tell of the blocks, and
-- what the screens count. The clock and the speeds it gives are left out.
pub mod Counts
pub mod Writes
pub mod Verifies
use goldboot.Base.{
  ℕ, zero, suc, ◌+◌, ◌^◌, Bool, true, false, List, [], ◌∷◌, Option, none, some, length, replicate,
  ltb, if◌then◌else◌, Result, ok, err, bind, Error, panicked,
}
use goldboot.Apply.{Progress}

pub data BlockState : Type 0 where
  pending writing up_to_date written verifying verified failed : BlockState

pub data PostWriteDialog : Type 0 where
  visible hidden : PostWriteDialog

pub record WriteProgress : Type 0 where
  pub cluster_count : ℕ
  pub block_size : ℕ
  pub block_states : List BlockState
  pub done : Bool
  pub verifying : Bool
  pub verify_only : Bool
  pub expanding_fs : Bool
  pub post_write_dialog : Option PostWriteDialog
  pub error : Option Error
  pub bytes_read_total : ℕ
  pub bytes_written_total : ℕ

unfoldable pub new_progress : ℕ → ℕ → WriteProgress
new_progress cluster_count block_size = record {
  cluster_count = cluster_count;
  block_size = block_size;
  block_states = replicate cluster_count pending;
  done = false;
  verifying = false;
  verify_only = false;
  expanding_fs = false;
  post_write_dialog = none;
  error = none;
  bytes_read_total = 0;
  bytes_written_total = 0;
}

-- `block_states[idx] = state`, which panics past the end.
unfoldable pub set_state : ℕ → BlockState → List BlockState → Result (List BlockState)
set_state idx s [] = err panicked
set_state zero s (t ∷ ts) = ok (s ∷ ts)
set_state (suc idx) s (t ∷ ts) = bind (set_state idx s ts) λ ts'. ok (t ∷ ts')

-- `+=` on a `u64`.
unfoldable pub add_u64 : ℕ → ℕ → Result ℕ
add_u64 a b = if ltb (a + b) (2 ^ 64) then ok (a + b) else err panicked

unfoldable pub write_state : Option Bool → BlockState
write_state none = writing
write_state (some true) = written
write_state (some false) = up_to_date

unfoldable pub count_write : Option Bool → WriteProgress → Result WriteProgress
count_write none p = ok p
count_write (some was_dirty) p = bind (add_u64 p.bytes_read_total p.block_size) λ read.
    bind
      (if was_dirty then add_u64 p.bytes_written_total p.block_size else ok p.bytes_written_total)
      λ wrote. ok (record p { bytes_read_total = read; bytes_written_total = wrote })

unfoldable pub record_cluster : ℕ → Option Bool → WriteProgress → Result WriteProgress
record_cluster idx state p =
    bind (set_state idx (write_state state) p.block_states)
      λ states. count_write state (record p { block_states = states })

unfoldable pub verify_state : Option Bool → BlockState
verify_state none = verifying
verify_state (some true) = verified
verify_state (some false) = failed

unfoldable pub count_verify : Option Bool → WriteProgress → Result WriteProgress
count_verify none p = ok p
count_verify (some matched) p =
    bind (add_u64 p.bytes_read_total p.block_size) λ read. ok (record p { bytes_read_total = read })

unfoldable pub record_verify_cluster : ℕ → Option Bool → WriteProgress → Result WriteProgress
record_verify_cluster idx state p =
    bind (set_state idx (verify_state state) p.block_states)
      λ states. count_verify state (record p { block_states = states })

-- The calls that a thread makes, one after the other.
unfoldable pub record_all :
    (ℕ → Option Bool → WriteProgress → Result WriteProgress)
    → Progress
    → WriteProgress
    → Result WriteProgress
record_all call [] p = ok p
record_all call ((idx, state) ∷ told) p = bind (call idx state p) λ p'. record_all call told p'

unfoldable pub count_where : (BlockState → Bool) → List BlockState → ℕ
count_where test [] = 0
count_where test (s ∷ ss) = if test s then suc (count_where test ss) else count_where test ss

abbrev pub is_written : BlockState → Bool
is_written written = true
is_written _ = false

abbrev pub is_up_to_date : BlockState → Bool
is_up_to_date up_to_date = true
is_up_to_date _ = false

abbrev pub is_verified : BlockState → Bool
is_verified verified = true
is_verified _ = false

abbrev pub is_failed : BlockState → Bool
is_failed failed = true
is_failed _ = false

abbrev pub is_processed : BlockState → Bool
is_processed written = true
is_processed up_to_date = true
is_processed verified = true
is_processed failed = true
is_processed _ = false

unfoldable pub blocks_written : WriteProgress → ℕ
blocks_written p = count_where is_written p.block_states

unfoldable pub blocks_up_to_date : WriteProgress → ℕ
blocks_up_to_date p = count_where is_up_to_date p.block_states

unfoldable pub blocks_processed : WriteProgress → ℕ
blocks_processed p = count_where is_processed p.block_states

unfoldable pub blocks_verified : WriteProgress → ℕ
blocks_verified p = count_where is_verified p.block_states

unfoldable pub blocks_failed : WriteProgress → ℕ
blocks_failed p = count_where is_failed p.block_states

-- `start_verify` resets the states of an earlier write.
unfoldable pub reset_states : List BlockState → List BlockState
reset_states [] = []
reset_states (s ∷ ss) = pending ∷ reset_states ss

unfoldable pub reset_for_verify : WriteProgress → WriteProgress
reset_for_verify p = record p {
  block_states = reset_states p.block_states;
  done = false;
  verifying = true;
  post_write_dialog = none;
}

-- The state that a write thread leaves, by what the write and the hooks returned.
unfoldable pub finish_write : Option Error → WriteProgress → WriteProgress
finish_write none p = record p { done = true; post_write_dialog = some visible }
finish_write (some e) p = record p { done = true; error = some e }

-- A verify thread shows the dialog after an error, too.
unfoldable pub finish_verify : Option Error → WriteProgress → WriteProgress
finish_verify none p = record p { done = true; verifying = false; post_write_dialog = some visible }
finish_verify (some e) p = record p {
  done = true;
  verifying = false;
  error = some e;
  post_write_dialog = some visible;
}
