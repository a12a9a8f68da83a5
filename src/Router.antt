-- ===== src/Router.antt =====
-- icebridge_svn/trunk/router and the message class that it uses (icebridge_svn/trunk/module/zmsg.hpp).
pub mod Fault
pub mod Returns
pub mod Post
pub mod Uuid
pub mod Message
pub mod Service
pub mod Broker
mod Tests
