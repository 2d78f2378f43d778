-- ===== src/Sensor/Server.antt =====
-- `sensorServerThread` of process2.c.
mod Defs
unfoldable pub use Defs.*
pub mod Collected
pub mod Thread
