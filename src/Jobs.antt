-- ===== src/Jobs.antt =====
-- The background jobs (session post-processing, note correction, report generation): one life
-- cycle, one table with leases, and the fence around a worker's writes.
pub mod Lifecycle
pub mod Model
pub mod Kinds
pub mod Lookups
pub mod Table
pub mod Fence
pub mod Leases
pub mod History
pub mod Attempts
