-- ===== src/Examples.antt =====
-- The theorems at concrete inputs, over concrete services, and tests of the definitions.
mod Memory
mod MemoryLaws
mod Machine
mod Retries
mod Queues
mod Notices
mod Steps
mod Lives
mod Runs
mod Losses
mod Goroutines
mod Shelf
mod Rounds
mod Orders
mod Stops
mod Videos
mod Shutdowns
mod Starts
mod Revivals
