-- ===== src/Controllers.antt =====
-- internal/controllers
pub mod Common
pub mod Start
pub mod Workers
pub mod Queued
pub mod Frame
pub mod Still
pub mod Naming
mod WorkExamples
mod QueuedExamples
pub mod Snapshots
pub mod Images
