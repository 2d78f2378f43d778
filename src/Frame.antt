-- ===== src/Frame.antt =====
-- frame-format.h and frame-format.c: the frame, its CRC, and how it is built and checked.
pub mod Layout
pub mod Samples
pub mod Crc
pub mod Build
pub mod Check
pub mod Spec
pub mod Acceptance
pub mod RoundTrip
pub mod Request
pub mod Report
pub mod Corruption
