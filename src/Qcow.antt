-- ===== src/Qcow.antt =====
-- goldboot-image/src/qcow: the qcow2 (version 3) source image: its header, its two levels of tables
-- and its snapshots. A file is the list of its bytes, and a seek to
-- `Start(n)` followed by reads works on `drop n file`. `1 << cluster_bits` is `2 ^ cluster_bits`,
-- for the cluster sizes that the format has (`cluster_bits` from 9 to 21).
mod Header
mod Levels
mod Snapshot
mod Image
pub mod Allocation
mod Tests
unfoldable pub use Header.*
unfoldable pub use Levels.*
unfoldable pub use Snapshot.*
unfoldable pub use Image.*
