-- ===== src/ZoneStore.antt =====
-- counter_cruiser/client/web/zone_store.py: the zones in memory and in the client's TOML file.
-- tomlkit is a parameter; each write of the disk takes an argument that says how it goes. The lock
-- makes every method one step, so a run is a sequence of these steps.
mod Defs
pub mod Lists
pub mod Outcomes
pub mod Invariant
pub mod Requests
pub mod File
unfoldable pub use Defs.*
