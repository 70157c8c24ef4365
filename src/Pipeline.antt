-- ===== src/Pipeline.antt =====
-- The processing pipeline: internal/processor/processor.go and its steps.
pub mod Result
pub mod Host
pub mod Media
pub mod Steps
pub mod Process
pub mod Quiet
pub mod Parallel
pub mod Outcomes
