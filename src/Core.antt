-- ===== src/Core.antt =====
-- crates/mizan-core: identifiers, the errors of the whole program, the redaction of secrets.
pub mod Id
pub mod Context
pub mod Headers
pub mod Error
pub mod Exec
pub mod Redaction
