-- ===== src/Main.antt =====
-- counter_cruiser/client/__main__.py: `main`, from the settings to the clean-up of the handlers.
mod Callbacks
mod Defs
pub mod Kept
pub mod Started
pub mod CleanUp
unfoldable pub use Callbacks.*
unfoldable pub use Defs.*
