-- ===== src/Peer.antt =====
-- toxtun/peer.c.
pub mod Window
pub mod Messages
pub mod Dispatch
pub mod Queue
pub mod Throttle
pub mod Connection
pub mod Release
pub mod Reset
pub mod Outgoing
pub mod Send
pub mod Disconnect
