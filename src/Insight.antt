-- ===== src/Insight.antt =====
-- Meeting insights (server/app/contexts/insight): events, their states and merging, and the board of
-- live questions.
pub mod States
pub mod Events
pub mod Repository
pub mod Service
pub mod Merging
pub mod Slots
pub mod Searches
pub mod Singles
