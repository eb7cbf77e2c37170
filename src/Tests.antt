-- ===== src/Tests.antt =====
-- Tests at concrete inputs, and a witness for each property.
mod Session
mod Jobs
mod Live
mod Runtime
mod Insight
mod PostProcessing
mod Pipeline
mod Services
