-- ===== src/Tests.antt =====
-- The theorems at concrete inputs, and runs of the definitions.
mod Fixtures
mod Delivery
mod Fragments
mod Sending
mod Protocol
mod Unreliable
mod Bandwidth
mod Hosts
mod Receive
mod Poll
mod Events
mod Links
mod Checksum
mod Packets
