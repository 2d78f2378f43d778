-- ===== src/Sensor/Locks.antt =====
-- The shared data with its lock as a value.
mod Defs
unfoldable pub use Defs.*
pub mod Relation
pub mod Processor
pub mod Messages
pub mod Signals
pub mod Collector
pub mod Refinement
pub mod Release
pub mod Runs
pub mod Lost
pub mod Latest
