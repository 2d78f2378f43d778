-- ===== src/Frame/Build.antt =====
-- `makeSendPacket` and `makeRecvPacket` of frame-format.c.
mod Defs
pub mod Writes
pub mod Outcome
unfoldable pub use Defs.*
