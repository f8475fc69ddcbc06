-- ===== src/Convert.antt =====
-- goldboot-image/src/lib.rs, `ImageHandle::from_qcow`: a qcow2 disk becomes a `.gb` file, each
-- distinct block stored once. The random bytes and the clock are arguments.
mod State
mod Loop
mod Image
pub mod Blocks
pub mod Stored
pub mod Represents
pub mod Steps
pub mod Runs
pub mod Tables
pub mod Extent
pub mod Counted
pub mod Counters
pub mod Restores
pub mod EndToEnd
pub mod ContentId
mod Tests
unfoldable pub use State.*
unfoldable pub use Loop.*
unfoldable pub use Image.*
