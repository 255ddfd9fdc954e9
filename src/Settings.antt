-- ===== src/Settings.antt =====
-- counter_cruiser/config/models.py: the settings with their defaults, sources and validators. Each
-- group of fields comes as a record of what a source gives, of the fields' types.
mod Fields
mod Defs
pub mod Steps
pub mod Built
pub mod Accepted
pub mod Bounds
pub use Fields.*
unfoldable pub use Defs.*
