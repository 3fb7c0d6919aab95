-- ===== src/Relay.antt =====
-- src/babeltower/relay.py: `SessionManager`.
pub mod Sockets
pub mod Persist
pub mod End
pub mod Messages
pub mod Join
pub mod Hello
pub mod Ended
pub mod Keeps
pub mod Monitor
pub mod Bounds
pub mod Delivered
pub mod Arrived
pub mod Lost
