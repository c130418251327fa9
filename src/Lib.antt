-- ===== src/Lib.antt =====
-- mcpgw: one canonical list of MCP servers, mirrored into the configuration of every MCP client of a
-- machine (sync, import, eject) or served to them through a local gateway that owns the servers'
-- processes (upstream) and watches what they offer (pins). This library models the core of the
-- library crate, crates/core.
--
-- The parts and how they interact:
--   The configuration names the servers. A gateway reloads it and hands the servers to
--   the upstream manager, which keeps one upstream per server: a slot holding a connection, a call
--   budget and the settings of the server. Tool rules of a server and of a client's scope decide
--   which tools pass. A list of tools that passes through is compared with the server's pins. A
--   sync computes, for one client, which entries of its file to add, update and remove; the client's
--   codec says how an entry is spelled and read. An import goes the other way: it reads every
--   client and plans the entries into the configuration. A gateway's endpoint asks the tool rules,
--   the client's scope and the upstream's budget before a call goes further.
--
-- Which file models what:
--   Base        What the others share. Base/Bytes: a String is the list of its UTF-8 bytes,
--               compared as `str` compares. Base/Map: BTreeMap as a list of
--               pairs in the order of the keys; its get, insert, remove and collect. Base/Lists:
--               iterators.
--   Config      crates/core/src/config.rs. Rules: `ToolRules` with `matches`, `allows`,
--               `unmatched`. Scope: `ClientScope`. Name: `validate_name`. Server: `Server`,
--               `Transport` and their derived equality.
--   Upstream    crates/core/src/upstream.rs. Budget: `Budget::charge` on instants and durations in
--               nanoseconds. Slot: `Slot` and every locked section of `ready`, `demote`,
--               `release`, `retire` and the claim's guard, each one step; Slot/Step is the
--               relation of all their interleavings. Apply: `UpstreamManager::apply` over a heap
--               of upstreams, since an entry is an `Arc` that a reload keeps, edits in place or
--               replaces.
--   Pins        crates/core/src/pins.rs. `compare` and `PinStore::read`, `pin`, `write` and
--               `observe`, the last under its gate. A hash is an opaque text. The store is a
--               directory: by the name of a file, what a read of it gives. A write goes to the file
--               of the server that the pin file names, which need not be the one whose file was
--               read, and takes effect as a whole or fails and leaves the old file. Kept and
--               Observe say what an observation leaves, Noticed what it reports.
--   Clients     crates/core/src/clients.rs and crates/core/src/clients/codec.rs. Json: the values
--               of serde_json with `preserve_order`; a number is kept as its text. Schema:
--               `ClientKind::codec` and the tables of `EntrySchema`. Emit: `EntrySchema::emit`.
--               Ids: `ClientKind::id`. Fields and Parse: `EntrySchema::parse` in all ten shapes;
--               Found, RoundTrip: what it reads of an emitted entry. Objects: serde_json's map and
--               its `remove`, which moves the last field into the gap. Edit: `RootPath::locate_in`,
--               `json_entries` and `edit_json` on a JSON document; a refusal carries the keys
--               walked, which the source joins with dots. Unique, Written: no key twice.
--   Import      crates/core/src/import.rs. Slug: `slugify`. Suffix: `next_free`. Address:
--               `same_transport` and `canonical_url`. Plan: `plan_import`, loop by loop; Names,
--               Handed and Fresh follow the names it hands out, Origins and Behind the entries.
--   Sync        crates/core/src/sync.rs. Plan: `plan_sync` with `carry_over_client_fields`, loop
--               by loop. Fate and Decided: the decision on one name, and that the loops take it.
--               Names: `under_client_names`. Context: `plan_client_context`. Apply: `apply_plan`.
--               Carry and Carried: the client's own fields, carried over twice; Quiet and Again: a
--               sync after a sync.
--   State       crates/core/src/state.rs. `Scope` and the operations on `ManagedState`; the
--               normalisation of a path and the text that a path is shown as are parameters. Owned
--               and Answered say what each operation changes, Origin reads an origin key back.
--   Upgrade     crates/core/src/upgrade.rs. `Watcher::tick`; the stat and the verification are the
--               parameters that they are in the source, a reading handed to each tick.
--   Gateway     crates/core/src/gateway.rs and `UpstreamManager::charge`. `Gateway::refusal`, the
--               filter of `list_tools` on what the upstream answered, and `call_tool` until its
--               upstream is acquired. Origin: `guard_origin`.
--   Reload      crates/core/src/reload.rs. `Reloader::select`, `apply`, `reload` and the turns of
--               `watch`; a look at the config file is a stamp and what was loaded.
--   Backup      crates/core/src/backup.rs. Keys and names; Dir: `backup_file_at`, `prune` and
--               `latest_backup` on a directory, which is a list of files.
--   Tests       Runs of the definitions and the theorems at concrete inputs.
--
-- Bounds and fuel: a loop over a list is recursion on it. Two loops of the import run on fuel:
-- `next_free` has one turn more than there are names taken and `slugify` as many as the text is long,
-- and the theorems on them say that this is enough. The digits of a number have one turn more than
-- the number. An instant is a number of nanoseconds without an upper bound: the budget's arithmetic
-- stays far below the range of `Instant`. `saturating_sub` is the subtraction of the naturals.
--
-- Not modelled: processes, HTTP and the MCP protocol, which are libraries that the code calls; the
-- TOML, JSONC and JSON parsers and printers; the file system beyond a read and a write that may fail;
-- the terminal interface of crates/cli. A connect ladder's attempts are its outcome. The theorems on
-- `Pins` and `Sync` that speak of a BTreeMap suppose that its keys stand in order, as insertion
-- and collection leave them.
pub mod Base
pub mod Config
pub mod Upstream
pub mod Pins
pub mod Clients
pub mod Import
pub mod Sync
pub mod Backup
pub mod State
pub mod Upgrade
pub mod Gateway
pub mod Reload
mod Tests
