-- ===== src/Transport.antt =====
-- counter_cruiser/client/transport.py: `ClientSession`. The send loop, the receive loop, `stop` and
-- a reconnect are steps of one state; between two awaits a task runs alone, so any interleaving of
-- the two tasks is a sequence of these steps. Run is the loop around the connections.
mod Defs
pub mod Run
pub mod Numbered
pub mod Buffer
pub mod Reconnect
pub mod Latency
unfoldable pub use Defs.*
