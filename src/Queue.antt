-- ===== src/Queue.antt =====
-- The job queue: queue/job.go and queue/client.go.
pub mod State
pub mod Job
pub mod View
pub mod Updates
pub mod Moves
pub mod Publish
pub mod Consume
pub mod Names
pub mod Reachable
pub mod Undisturbed
pub mod Recovery
pub mod Rescue
pub mod Stranded
pub mod Client
pub mod Watch
pub mod RoundTrip
pub mod Order
