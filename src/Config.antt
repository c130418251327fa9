-- ===== src/Config.antt =====
-- crates/core/src/config.rs: tool rules, client scopes and server names.
pub mod Rules
pub mod Scope
pub mod Name
pub mod Server
