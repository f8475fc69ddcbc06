-- ===== src/Gui.antt =====
-- goldboot/src/gui/state.rs: the progress of a write, and what follows it.
pub mod Progress
pub mod Hooks
mod Tests
