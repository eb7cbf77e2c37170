-- ===== src/Live.antt =====
-- The live runtime (server/app/contexts/live_capture/application/audio/runtime): stream contexts,
-- their registry, the ready queues, the inference scheduler, the workers and the service.
pub mod Chunks
pub mod Context
pub mod Policy
pub mod History
pub mod Delivery
pub mod Bounds
pub mod Claiming
pub mod Readiness
pub mod ReadyQueue
pub mod Registry
pub mod Scheduler
pub mod Service
pub mod Runs
pub mod Attended
