-- ===== src/Tests.antt =====
-- Runs on concrete inputs, and the theorems at such inputs.
mod Names
mod Versions
mod Caching
mod Verdicts
mod Requests
mod Handlers
mod Batches
mod Queues
mod Configs
mod Settings
mod Godaddy
mod Trees
mod Certificates
mod Serving
