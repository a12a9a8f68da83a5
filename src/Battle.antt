-- ===== src/Battle.antt =====
-- workers/pvp_worker: the battles of one player against another.
pub mod State
pub mod Points
pub mod Update
pub mod Messages
pub mod Server
pub mod Loop
pub mod Fair
pub mod Fought
pub mod Handled
pub mod Received
pub mod Timed
pub mod Ticks
pub mod Attack
mod Tests
