-- ===== src/Gpt.antt =====
-- goldboot/src/gpt.rs: GUID partition tables.
pub mod Crc
pub mod Utf16
pub mod Entry
pub mod Table
pub mod Write
pub mod Fixup
pub mod Sealed
pub mod Found
pub mod RoundTrip
mod Tests
