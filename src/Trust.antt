-- ===== src/Trust.antt =====
-- The trust verifier: internal/trust.
pub mod Checks
pub mod Verifier
pub mod Merkle
pub mod Stores
pub mod Cached
pub mod Revocation
pub mod Certificate
