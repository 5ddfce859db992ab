-- ===== src/Dispatch.antt =====
-- crates/mizan-api/src/dispatch.rs: the queue of jobs for daemon nodes, in the table dispatch_jobs.
pub mod Jobs
pub mod Statements
pub mod Queue
pub mod Status
pub mod Calls
pub mod Final
pub mod Wait
mod Tests
