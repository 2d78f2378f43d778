-- ===== src/Gtest/Pipeline.antt =====
-- gtest-controll-pipeline.cc: messages through the control process's two receiving threads.
mod Defs
unfoldable pub use Defs.*
pub mod Runs
pub mod Pipes
pub mod Completion
