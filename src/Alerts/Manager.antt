-- ===== src/Alerts/Manager.antt =====
-- counter_cruiser/client/alerts/manager.py: the cooldown of each zone and the isolated dispatch.
mod Defs
pub mod Dispatch
pub mod Spacing
unfoldable pub use Defs.*
