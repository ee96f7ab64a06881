-- ===== src/Lib.antt =====
-- toxsh: the message engine of toxtun, the reliable and unreliable channels that the tunnel runs on.
--
-- toxtun/ holds an engine in C after ENet, changed to send through a transport of the host's (Tox or a
-- socket). A host has peers, a peer has channels. enet_peer_send (toxtun/peer.c) cuts a packet in
-- commands and queues them; enet_host_service (toxtun/protocol.c) packs queued commands in datagrams,
-- reads those of the other side, and calls one handler per command; the handlers put what arrived in
-- the channel (enet_peer_queue_incoming_command), the dispatch hands it over in order, and
-- enet_peer_receive takes it out.
--
-- Files, and the code that each is about:
--   Prelude            shared names; lists by native numbers; words of C with their wrap-around
--   Wire               toxtun/enetinc/enet/protocol.h, and commandSizes of toxtun/protocol.c
--   Memory, State      the structs of toxtun/enetinc/enet/enet.h
--   Packet             toxtun/packet.c: enet_packet_create, enet_packet_resize
--   Peer/Window        toxtun/peer.c: the test of a sequence number against the receiving window
--   Peer/Dispatch      toxtun/peer.c: enet_peer_dispatch_incoming_reliable_commands and
--                      enet_peer_dispatch_incoming_unreliable_commands
--   Peer/Queue         toxtun/peer.c: enet_peer_queue_incoming_command
--   Peer/Messages, Peer/Queue/*, Peer/Dispatch/*  what is delivered
--   Peer/Throttle      toxtun/peer.c: enet_peer_throttle
--   Peer/Connection    the counters of a host, and the states of a peer, toxtun/peer.c and
--                      toxtun/protocol.c
--   Peer/Release       toxtun/peer.c: enet_peer_reset_outgoing_commands; packets by reference counts
--   Peer/Reset         toxtun/peer.c: enet_peer_reset_queues, enet_peer_reset, the settings of a peer
--   Peer/Outgoing      toxtun/peer.c: enet_peer_setup_outgoing_command,
--                      enet_peer_queue_outgoing_command, enet_peer_queue_acknowledgement,
--                      enet_peer_ping, enet_peer_throttle_configure
--   Peer/Send          toxtun/peer.c: enet_peer_send, enet_peer_receive
--   Peer/Disconnect    toxtun/peer.c: enet_peer_disconnect and its two variants
--   Protocol/Data      toxtun/protocol.c: the handlers of reliable, unreliable and unsequenced packets
--   Protocol/Control   toxtun/protocol.c: reports of connections and ends, and the handlers of ping,
--                      bandwidth limits, throttle settings and disconnection
--   Protocol/Acknowledge  toxtun/protocol.c: enet_protocol_handle_acknowledge, the removal of what was
--                      sent
--   Protocol/Handshake toxtun/protocol.c: enet_protocol_handle_connect,
--                      enet_protocol_handle_verify_connect
--   Protocol/Counters, Protocol/History  the counters of a host through the life of a peer
--   Protocol/Draft, Protocol/Transmit, Protocol/Reliable  toxtun/protocol.c: what goes into a datagram,
--                      enet_protocol_send_acknowledgements,
--                      enet_protocol_send_unreliable_outgoing_commands,
--                      enet_protocol_check_timeouts, enet_protocol_send_reliable_outgoing_commands
--   Protocol/UnreliableFragment  toxtun/protocol.c: enet_protocol_handle_send_unreliable_fragment
--   Wire/Layout        toxtun/enetinc/enet/protocol.h: the packed structs of the commands, as bytes
--   Protocol/Receive   toxtun/protocol.c: enet_protocol_handle_incoming_commands
--   Protocol/Receive/Poll  toxtun/protocol.c: enet_protocol_receive_incoming_commands
--   World              a host with its peers
--   Host               toxtun/host.c, and enet_host_create_notp of toxtun/bilayer.c
--   Host/Bandwidth     toxtun/host.c: enet_host_bandwidth_throttle
--   Host/Agreement     the two ends of a handshake, toxtun/host.c and toxtun/protocol.c
--   Protocol/Events    toxtun/protocol.c: enet_protocol_dispatch_incoming_commands,
--                      enet_host_check_events
--   Packet/Checksum, Packet/Xor, Packet/Linear, Packet/Reference  toxtun/packet.c: enet_crc32, against
--                      a division by the polynomial that takes the low bit first
--   Packet/Resize      toxtun/packet.c: enet_packet_resize
--   Links              toxtun/list.c
--   Protocol/Fragment  toxtun/protocol.c: enet_protocol_handle_send_fragment
--   Tests              runs on small inputs
--
-- How the code is read. A function that changes a peer and its host takes and gives back a Site: the
-- peer, the scalar fields of its host, and the packets in memory by their addresses. A list of the
-- source (ENetList) is a sequence, oldest first. Numbers of 16 and 32 bits wrap where the source's
-- do. malloc is an argument that says what each call returns, so every branch on NULL is there. An
-- access through NULL or out of bounds in the handlers is the result `fault`. A byte of a packet that
-- was allocated and never written is `none`. Most loops go over the lists that they
-- consume. The loop that cuts a packet runs on fuel, which is the packet's length: each round takes at
-- least a byte. enet_host_flush, which hands queues to sockets, is an argument of the
-- functions that call it.
--
-- enet_host_flush, the checksum and the decompressor of a host are arguments likewise. The two loops of
-- enet_host_bandwidth_throttle run on as many rounds as there are peers and one, and the loop over a
-- datagram on as many as it has bytes; both are shown to be enough. The lists as pointers are in Links;
-- the other modules read a list as a sequence.
--
-- Not modelled: enet_host_service and enet_protocol_send_outgoing_commands of toxtun/protocol.c, the
-- statistics of a host, the sockets and the clock (toxtun/unix.c, toxtun/win32.c), the compressor
-- (toxtun/compress.c), the callbacks of the allocator, the transports (the rest of toxtun/bilayer.c),
-- the C++, Go and Python programs on top of the engine, and dtnat/, which is a TURN server of another
-- project.
pub mod Prelude
pub mod Wire
pub mod Memory
pub mod State
pub mod Links
pub mod World
pub mod Packet
pub mod Peer
pub mod Protocol
pub mod Host
mod Tests
