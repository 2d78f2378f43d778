-- ===== src/Sensor.antt =====
-- The collection of sensor data and its processing, two threads over one shared record.
pub mod Data
pub mod Loop
pub mod Collector
pub mod Readings
pub mod Independence
pub mod Processing
pub mod Pipeline
pub mod System
pub mod Locks
pub mod Latest
pub mod Server
