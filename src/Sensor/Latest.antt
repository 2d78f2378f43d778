-- ===== src/Sensor/Latest.antt =====
-- What the shared SENSOR_DATA is for: the latest reading of each sensor.
pub mod Defs
pub mod Steps
pub mod Refinement
pub mod History
