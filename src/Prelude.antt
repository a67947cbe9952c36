-- ===== src/Prelude.antt =====
-- The names that the other modules share: those of the libraries and the helpers on tests, results and
-- lists (Base), and modules for text, string-keyed maps, numbers and retry loops.
mod Base
pub mod Text
pub mod Dict
pub mod Number
pub mod Retry
pub mod Signals
pub use Base.*
