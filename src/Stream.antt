-- ===== src/Stream.antt =====
-- counter_cruiser/client/web/mjpeg.py
mod Defs
pub mod Pacing
unfoldable pub use Defs.*
