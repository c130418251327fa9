-- ===== src/Tests.antt =====
-- The theorems at concrete inputs, and runs of the definitions.
mod Config
mod Upstream
mod Pins
mod Sync
mod Upgrade
mod State
mod Context
mod Clients
mod Import
mod Gateway
mod Backup
mod Reload
