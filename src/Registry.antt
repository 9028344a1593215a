-- ===== src/Registry.antt =====
-- The registry: internal/registry.
pub mod Record
pub mod Mock
pub mod Godaddy
