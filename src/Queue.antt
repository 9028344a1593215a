-- ===== src/Queue.antt =====
-- The event queues: internal/queue/interface.go, internal/queue/memory.go and internal/queue/redis.go.
pub mod Event
pub mod Memory
pub mod Redis
