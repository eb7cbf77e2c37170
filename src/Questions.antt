-- ===== src/Questions.antt =====
-- Live questions (server/app/contexts/insight/application/live_questions): what passes through the
-- queues, the board of open questions, and the windows that are sent for analysis.
pub mod Models
pub mod Board
pub mod Titles
pub mod Boards
pub mod Json
pub mod Payloads
pub mod RoundTrips
pub mod Sessions
