-- ===== src/Login.antt =====
-- gateway_server/service: the part of the login worker that plays the game for one player.
pub mod State
pub mod Buildings
pub mod Built
pub mod Reloaded
pub mod Progress
pub mod Begun
pub mod Events
pub mod Finishing
pub mod Spending
pub mod Goods
pub mod Equipment
pub mod Trade
pub mod Heroes
pub mod Arms
pub mod Recruiting
mod Tests
