-- ===== src/Sensor/Processing.antt =====
-- `sensorProcessingThread` of sensor-processing.c.
mod Defs
unfoldable pub use Defs.*
pub mod Results
pub mod Thread
