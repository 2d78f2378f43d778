-- ===== src/Frame/Crc.antt =====
-- `calculatePacketCrc` and `checkPacketCrc` of frame-format.c, and what they compute.
mod Defs
mod Laws
unfoldable pub use Defs.*
pub use Laws.*
