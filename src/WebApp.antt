-- ===== src/WebApp.antt =====
-- counter_cruiser/client/web/app.py and the registrations of counter_cruiser/client/web/routes_*.py: the
-- routes of the web application, and what a call of each does.
mod Defs
pub mod Safe
unfoldable pub use Defs.*
