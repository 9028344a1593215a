-- ===== src/Server.antt =====
-- The HTTP server: internal/server/http.go. A request is its query or body and the resolver's state;
-- a response is its status code with what the body says. Headers are left out.
pub mod Handlers
pub mod Setup
pub mod Responses
pub mod Batches
pub mod Consumer
pub mod DefaultTrust
pub mod MockRegistry
pub mod Metered
pub mod Routing
pub mod Lifecycle
pub mod Calls
