-- ===== src/Control.antt =====
-- process3: two threads that pass messages on through pipes, and a main loop that reads the pipes.
mod Defs
unfoldable pub use Defs.*
pub mod Setup
pub mod Reads
pub mod Rounds
pub mod Order
pub mod Drain
