-- ===== src/Protocol.antt =====
-- toxtun/protocol.c: what a peer does with the commands of a datagram.
pub mod Result
pub mod Fragment
pub mod Data
pub mod Control
pub mod Acknowledge
pub mod Handshake
pub mod Counters
pub mod History
pub mod Draft
pub mod Transmit
pub mod Reliable
pub mod UnreliableFragment
pub mod Receive
pub mod Events
