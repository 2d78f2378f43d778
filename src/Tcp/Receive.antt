-- ===== src/Tcp/Receive.antt =====
-- `receiveThread` of recv-thread.c.
mod Defs
unfoldable pub use Defs.*
pub mod Answers
pub mod Rounds
pub mod Ending
pub mod Streams
