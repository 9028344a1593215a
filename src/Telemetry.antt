-- ===== src/Telemetry.antt =====
-- Metrics, logging and tracing: internal/telemetry.
pub mod Metrics
pub mod Logging
pub mod Tracing
