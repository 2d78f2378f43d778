-- ===== src/Tcp/Session.antt =====
-- The two threads of a client over its shared record.
mod Defs
unfoldable pub use Defs.*
pub mod Effects
pub mod Mailbox
pub mod Safety
pub mod Answers
pub mod Exit
pub mod Ending
pub mod Sending
