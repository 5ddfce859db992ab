-- ===== src/Nodes.antt =====
-- crates/mizan-api/src/daemon_nodes.rs: the nodes that run the daemon, their capabilities, their
-- tokens and signed requests, and the choice of a node for a model.
pub mod Table
pub mod Capabilities
pub mod Select
pub mod Signature
pub mod Payloads
pub mod Rows
pub mod Calls
pub mod Identity
pub mod List
pub mod Revocation
pub mod Choice
pub mod Refusal
mod Tests
