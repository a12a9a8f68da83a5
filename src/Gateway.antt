-- ===== src/Gateway.antt =====
-- gateway_server/sdk: the sessions of the gateway.
pub mod Session
pub mod Sound
pub mod Handlers
pub mod Posting
pub mod Stream
pub mod Manager
pub mod Unique
pub mod Cipher
pub mod Filter
pub mod Filtered
pub mod NetMessage
pub mod Outbox
pub mod Tests
