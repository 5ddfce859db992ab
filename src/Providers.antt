-- ===== src/Providers.antt =====
-- crates/mizan-providers/src/lib.rs: what the OpenAI-compatible client makes of the upstream's answers.
-- HTTP itself is external.
pub mod Payloads
pub mod Sse
mod Tests
