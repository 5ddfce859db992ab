-- ===== src/Gateway.antt =====
-- crates/mizan-api/src/gateway.rs: a request for a completion, from its headers to its response.
pub mod Requests
pub mod Policy
pub mod Routes
pub mod State
pub mod Attempt
pub mod Provider
pub mod Daemon
pub mod Handler
pub mod Stream
mod Tests
