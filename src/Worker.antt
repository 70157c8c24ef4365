-- ===== src/Worker.antt =====
-- The worker: main.go.
pub mod Artifacts
pub mod Settle
pub mod Retry
pub mod Report
pub mod Closed
pub mod Keeps
pub mod Safe
pub mod Crash
pub mod Paths
pub mod Uploads
pub mod Video
pub mod Stops
pub mod Frozen
pub mod Revival
pub mod History
pub mod Shutdown
pub mod Others
pub mod Lifecycle
pub mod Loss
pub mod Round
pub mod Branches
pub mod Refinement
pub mod Finish
pub mod Turn
pub mod Life
pub mod Health
pub mod Budget
