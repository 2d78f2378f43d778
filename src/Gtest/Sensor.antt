-- ===== src/Gtest/Sensor.antt =====
-- gtest-sensor-integration.cc: four sensors that send the same frame ten times each.
mod Defs
unfoldable pub use Defs.*
pub mod Payload
pub mod Frames
pub mod Sums
pub mod Receiving
pub mod Turns
pub mod Results
pub mod Merged
pub mod Integration
