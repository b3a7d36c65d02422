-- ===== src/Jobs.antt =====
-- services/gateway/internal/jobs/jobs.go: the projection of stream events into the jobs table,
-- and its start and stop.
pub mod Runner
pub mod Fact
pub mod Spec
pub mod Redelivery
pub mod Closing
pub mod Counting
pub mod Writes
pub mod Ending
pub mod Instruments
pub mod Lifecycle
