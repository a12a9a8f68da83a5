-- ===== src/Army.antt =====
-- workers/small_map_worker: the queues in which the camps of a player build soldiers.
pub mod State
pub mod Queue
pub mod Complete
pub mod Scheduled
pub mod Restored
pub mod Reload
pub mod Tests
