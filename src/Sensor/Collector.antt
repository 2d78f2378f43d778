-- ===== src/Sensor/Collector.antt =====
-- `sensorCollectorThread` of sensor-collector.c.
mod Defs
unfoldable pub use Defs.*
pub mod Frames
pub mod Rounds
pub mod Thread
