-- ===== src/WorldMap.antt =====
-- workers/simple_worker: the free positions of the world map.
pub mod Positions
pub mod Indexed
pub mod Swapped
pub mod Taken
pub mod Tests
