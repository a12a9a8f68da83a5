-- ===== src/Router/Broker.antt =====
-- router/mdbroker.cpp: the broker's state and what it does with each message, in child modules.
pub mod State
pub mod Services
pub mod Dispatch
pub mod Delivery
pub mod Soundness
pub mod Invariant
pub mod Handlers
pub mod History
pub mod Replies
pub mod Reserved
pub mod Change
pub mod Workers
pub mod Clients
pub mod Loop
