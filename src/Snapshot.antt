-- ===== src/Snapshot.antt =====
-- counter_cruiser/client/alerts/snapshot.py
mod Defs
mod Names
pub mod Retention
pub mod Failures
unfoldable pub use Defs.*
pub use Names.{Distinct, names}
