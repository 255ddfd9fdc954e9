-- ===== src/Debounce.antt =====
-- counter_cruiser/shared/debounce.py: the bounded window of recent frame results, and the test for
-- two elevated frames close to one another. Frame ids are Python integers of either sign: a
-- server's answer may carry any. `sorted` is stable insertion by the key.
mod Defs
pub mod Pairs
pub mod Window
unfoldable pub use Defs.*
