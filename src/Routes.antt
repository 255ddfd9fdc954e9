-- ===== src/Routes.antt =====
-- counter_cruiser/client/web/routes_zones.py: the zone endpoints over the zone store. A body is a
-- JSON object whose values have their documented types, and any key may be missing.
mod Defs
pub mod Accepted
pub mod Answers
unfoldable pub use Defs.*
