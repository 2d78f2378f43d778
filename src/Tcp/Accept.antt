-- ===== src/Tcp/Accept.antt =====
-- `main` of process1.c.
mod Defs
unfoldable pub use Defs.*
pub mod Slots
pub mod Watch
pub mod Reuse
