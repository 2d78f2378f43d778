-- ===== src/Frame/Check.antt =====
-- `getTotalRecvSize`, `checkPacketFormat` and `printPacketFormatError` of frame-format.c.
mod Defs
unfoldable pub use Defs.*
pub mod Verdict
