-- ===== src/Session.antt =====
-- The meeting session: its states, its participants, the entity and its transitions
-- (server/app/domain/session, server/app/contexts/participation/domain), and what they guarantee.
pub mod States
pub mod Participants
pub mod Entity
pub mod History
pub mod Invariant
pub mod Versions
pub mod Links
