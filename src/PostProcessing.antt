-- ===== src/PostProcessing.antt =====
-- The post-processing of a session (server/app/contexts/post_processing): the transcript table, what
-- is built from a transcription, the canonical state and its recovery, and the run of a job.
pub mod Utterances
pub mod Builders
pub mod World
pub mod Canonical
pub mod Runner
pub mod Runs
pub mod Fencing
pub mod Views
pub mod Ends
pub mod Recovery
pub mod Restoring
pub mod Retries
pub mod Sequences
pub mod Dispatch
pub mod Enqueueing
pub mod Restarts
pub mod Attendance
pub mod Counters
