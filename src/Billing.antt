-- ===== src/Billing.antt =====
-- crates/mizan-api/src/billing.rs: wallets, the credit ledger and the usage events.
pub mod Tables
pub mod Database
pub mod Wallets
pub mod Usage
pub mod Rules
pub mod Balance
pub mod Writes
pub mod Settlement
pub mod Charge
pub mod Metering
pub mod Grants
pub mod Preflight
pub mod Uncharged
mod Tests
