-- ===== src/Clients.antt =====
-- crates/core/src/clients: how the client programs spell one server in their own configurations.
pub mod Json
pub mod Schema
pub mod Emit
pub mod Ids
pub mod Fields
pub mod Parse
pub mod Found
pub mod RoundTrip
pub mod Unique
pub mod Objects
pub mod Written
pub mod Edit
