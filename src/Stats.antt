-- ===== src/Stats.antt =====
-- counter_cruiser/client/deterrent_stats.py and counter_cruiser/client/web/routes_deterrent_stats.py
mod Defs
pub mod Reads
unfoldable pub use Defs.*
