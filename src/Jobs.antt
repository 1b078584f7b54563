-- ===== src/Jobs.antt =====
-- acton-dx/src/htmx/jobs: background jobs.
pub mod Queue
pub mod History
pub mod Status
pub mod Agent
pub mod Schedule
pub mod Scheduled
pub mod Cancellation
