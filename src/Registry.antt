-- ===== src/Registry.antt =====
-- goldboot-registry/src: the server that hosts images.
pub mod Storage
