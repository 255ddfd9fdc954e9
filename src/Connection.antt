-- ===== src/Connection.antt =====
-- counter_cruiser/client/transport.py: one connection of a `ClientSession` with its two tasks, and `run`
-- over the whole state. Transport has the steps of the session alone.
mod Defs
pub mod Run
pub mod Wire
pub mod Outline
pub mod Refined
pub mod Released
pub mod Every
pub mod Invariant
pub mod Stopped
pub mod Sent
unfoldable pub use Defs.*
unfoldable pub use Run.*
