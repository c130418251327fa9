-- ===== src/Sync.antt =====
-- crates/core/src/sync.rs: what synchronising one client would change.
pub mod Plan
pub mod Places
pub mod Passes
pub mod Sweep
pub mod Fate
pub mod Decided
pub mod Names
pub mod Context
pub mod Carry
pub mod Carried
pub mod Apply
pub mod Quiet
pub mod Again
