-- ===== src/Tcp/Server.antt =====
-- process1 as a whole.
mod Defs
unfoldable pub use Defs.*
pub mod Threads
pub mod Steps
pub mod Safety
pub mod Survivor
pub mod Iterations
pub mod Connected
