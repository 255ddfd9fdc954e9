-- ===== src/Client.antt =====
-- counter_cruiser/client/__main__.py: the frame-rate estimate, and what the client does with one
-- answer of the server.
pub mod Fps
mod OnResult
mod Receive
pub mod Merged
pub mod Interplay
pub mod Handlers
pub mod Reached
pub mod Kept
pub mod Pin
pub mod Alarm
unfoldable pub use OnResult.*
unfoldable pub use Receive.*
