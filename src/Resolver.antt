-- ===== src/Resolver.antt =====
-- The resolver, over any cache that keeps the laws of a store: internal/resolver/resolver.go.
pub mod Store
pub mod Types
pub mod Judge
pub mod Events
pub mod Verify
pub mod Request
pub mod Parallel
