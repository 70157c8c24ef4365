-- ===== src/Pipeline/Steps.antt =====
-- The steps of the pipeline: internal/processor/processor-steps.
pub mod Encoder
pub mod Transcode
pub mod Variants
pub mod Streaming
pub mod Segment
pub mod Shots
pub mod Analysis
pub mod Fallbacks
pub mod Choices
