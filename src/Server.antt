-- ===== src/Server.antt =====
-- counter_cruiser/server: the model wrapper (model.py) and the connection handler (handler.py).
pub mod Model
mod Handler
pub mod Replies
unfoldable pub use Handler.*
