-- ===== src/Gtest.antt =====
-- The programs under gtest as clients of the modelled code.
pub mod Sensor
pub mod Tcp
pub mod Pipeline
