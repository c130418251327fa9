-- ===== src/Upstream.antt =====
-- crates/core/src/upstream.rs: the manager of the servers behind the gateway.
pub mod Budget
pub mod Slot
pub mod Apply
