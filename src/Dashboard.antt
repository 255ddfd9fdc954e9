-- ===== src/Dashboard.antt =====
-- counter_cruiser/client/web/state.py: what the web pages see of the running client.
mod Defs
pub mod History
unfoldable pub use Defs.*
