-- ===== src/Deterrent.antt =====
-- counter_cruiser/client/alerts/deterrent.py: `DeterrentHandler`. `RPi.GPIO` and the statistics store
-- are seen as the calls made to them, and each call ends as the argument `Calls` says.
mod Defs
pub mod Burst
pub mod Settled
unfoldable pub use Defs.*
