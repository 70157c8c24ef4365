-- ===== src/Pipeline/Parallel.antt =====
-- internal/processor/processor.go, runNonCriticalStepsParallel: the four steps after the transcoding
-- as goroutines that share a semaphore, a mutex, a wait group and the result.
pub mod Run
pub mod Counts
pub mod Invariant
pub mod Progress
pub mod Result
