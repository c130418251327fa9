-- ===== src/Base/Map.antt =====
-- `BTreeMap<String, V>`: association lists kept in the order of the keys. A `BTreeSet<String>` is
-- the map into `Unit`.
mod Defs
mod Laws
mod Order
mod Collected
unfoldable pub use Defs.*
pub use Laws.*
pub use Order.*
pub use Collected.*
