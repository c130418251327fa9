-- ===== src/Import.antt =====
-- crates/core/src/import.rs: the servers that the clients already have, planned into the canonical
-- config.
pub mod Slug
pub mod Address
pub mod Suffix
pub mod Plan
pub mod Names
pub mod Handed
pub mod Fresh
pub mod Origins
pub mod Behind
