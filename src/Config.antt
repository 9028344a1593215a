-- ===== src/Config.antt =====
-- The configuration: internal/config/config.go. Reading the file and parsing YAML are parameters.
pub mod Providers
pub mod Policies
pub mod Types
pub mod Environment
pub mod Defaults
pub mod Loading
