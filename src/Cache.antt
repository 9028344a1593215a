-- ===== src/Cache.antt =====
-- The caches: Memory models internal/cache/memory.go with the parts of internal/cache/interface.go that
-- it uses, and Redis internal/cache/redis.go.
pub mod Table
pub mod Recency
pub mod Memory
pub mod Redis
