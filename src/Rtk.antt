-- ===== src/Rtk.antt =====
-- crates/mizan-rtk/src/filter.rs: the shortening of long tool output.
pub mod Filter
pub mod Laws
mod Tests
