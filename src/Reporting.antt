-- ===== src/Reporting.antt =====
-- Reports (server/app/contexts/reporting): the status of the pipeline behind a session.
pub mod Status
pub mod Completion
