-- ===== src/Apply.antt =====
-- goldboot-image/src/lib.rs: putting an image onto a disk. `ImageHandle::write` reads clusters from
-- the image file, `ImageHandle::stream_write` from a stream, and `ImageHandle::verify` checks a disk.
mod Target
mod Ordinals
mod Decode
mod Write
mod Stream
mod Verify
pub mod Distinct
pub mod Order
pub mod Restores
pub mod Verified
mod Tests
unfoldable pub use Target.*
unfoldable pub use Ordinals.*
unfoldable pub use Decode.*
unfoldable pub use Write.*
unfoldable pub use Stream.*
unfoldable pub use Verify.*
