-- ===== src/Limits.antt =====
-- crates/mizan-limits/src/lib.rs: the counters in Redis that limit requests, tokens and concurrent
-- requests. `Redis` is the store with the scripts that the program sends to it.
pub mod Redis
pub mod Acquire
pub mod Counters
pub mod Leases
pub mod Admission
pub mod Keys
mod Tests
pub mod Granted
