-- ===== src/State.antt =====
-- ENetChannel, ENetPeer and ENetHost of toxtun/enetinc/enet/enet.h. The scalar fields of a peer are
-- grouped in records by what they serve; `open` keeps their names. Each ENetList is a list, oldest
-- first.
use toxsh.Prelude.{ℕ, Bool, List}
use toxsh.Memory.{Store, IncomingCommand, OutgoingCommand, Acknowledgement}

-- ENetPeerState
pub data PeerState : Type 0 where
  disconnected connecting acknowledging_connect connection_pending : PeerState
  connection_succeeded connected disconnect_later disconnecting : PeerState
  acknowledging_disconnect zombie : PeerState

-- ENetAddress
pub record Address : Type 0 where
  pub host : ℕ
  pub port : ℕ
  pub vaddr : ℕ

-- ENetChannel
pub record Channel : Type 0 where
  pub outgoing_reliable_sequence_number : ℕ
  pub outgoing_unreliable_sequence_number : ℕ
  pub used_reliable_windows : ℕ
  pub reliable_windows : List ℕ
  pub incoming_reliable_sequence_number : ℕ
  pub incoming_unreliable_sequence_number : ℕ
  pub incoming_reliable_commands : List IncomingCommand
  pub incoming_unreliable_commands : List IncomingCommand

-- Who the other side is.
pub record Session : Type 0 where
  pub outgoing_peer_id : ℕ
  pub incoming_peer_id : ℕ
  pub connect_id : ℕ
  pub outgoing_session_id : ℕ
  pub incoming_session_id : ℕ
  pub address : Address

-- The drop rate of unreliable packets.
pub record Throttle : Type 0 where
  pub packet_throttle : ℕ
  pub packet_throttle_limit : ℕ
  pub packet_throttle_counter : ℕ
  pub packet_throttle_epoch : ℕ
  pub packet_throttle_acceleration : ℕ
  pub packet_throttle_deceleration : ℕ
  pub packet_throttle_interval : ℕ

-- Round trip times, in milliseconds.
pub record RoundTrip : Type 0 where
  pub last_round_trip_time : ℕ
  pub lowest_round_trip_time : ℕ
  pub last_round_trip_time_variance : ℕ
  pub highest_round_trip_time_variance : ℕ
  pub round_trip_time : ℕ
  pub round_trip_time_variance : ℕ

pub record Loss : Type 0 where
  pub packet_loss_epoch : ℕ
  pub packets_sent : ℕ
  pub packets_lost : ℕ
  pub packet_loss : ℕ
  pub packet_loss_variance : ℕ

-- Clocks and what they are compared with.
pub record Timing : Type 0 where
  pub last_send_time : ℕ
  pub last_receive_time : ℕ
  pub next_timeout : ℕ
  pub earliest_timeout : ℕ
  pub ping_interval : ℕ
  pub timeout_limit : ℕ
  pub timeout_minimum : ℕ
  pub timeout_maximum : ℕ

pub record Bandwidth : Type 0 where
  pub incoming_bandwidth : ℕ
  pub outgoing_bandwidth : ℕ
  pub incoming_bandwidth_throttle_epoch : ℕ
  pub outgoing_bandwidth_throttle_epoch : ℕ
  pub incoming_data_total : ℕ
  pub outgoing_data_total : ℕ

pub record Queues : Type 0 where
  pub acknowledgements : List Acknowledgement
  pub sent_reliable_commands : List OutgoingCommand
  pub sent_unreliable_commands : List OutgoingCommand
  pub outgoing_reliable_commands : List OutgoingCommand
  pub outgoing_unreliable_commands : List OutgoingCommand
  pub dispatched_commands : List IncomingCommand

-- ENetPeer. `channels` holds its `channelCount` channels, and is empty for NULL.
-- `unsequenced_window` is the bitmap of the unsequenced groups seen, bit by bit.
pub record Peer : Type 0 where
  pub state : PeerState
  pub session : Session
  pub throttle : Throttle
  pub round_trip : RoundTrip
  pub loss : Loss
  pub timing : Timing
  pub bandwidth : Bandwidth
  pub queues : Queues
  pub open queues use *
  pub channels : List Channel
  pub mtu : ℕ
  pub window_size : ℕ
  pub reliable_data_in_transit : ℕ
  pub outgoing_reliable_sequence_number : ℕ
  pub needs_dispatch : Bool
  pub incoming_unsequenced_group : ℕ
  pub outgoing_unsequenced_group : ℕ
  pub unsequenced_window : List Bool
  pub event_data : ℕ
  pub total_waiting_data : ℕ

-- ENetHost without its peers, its socket and its callbacks. `dispatch_queue` holds the incoming
-- ids of the peers that are linked in it.
pub record Host : Type 0 where
  pub incoming_bandwidth : ℕ
  pub outgoing_bandwidth : ℕ
  pub bandwidth_throttle_epoch : ℕ
  pub mtu : ℕ
  pub random_seed : ℕ
  pub recalculate_bandwidth_limits : Bool
  pub channel_limit : ℕ
  pub service_time : ℕ
  pub dispatch_queue : List ℕ
  pub received_address : Address
  pub connected_peers : ℕ
  pub bandwidth_limited_peers : ℕ
  pub duplicate_peers : ℕ
  pub maximum_packet_size : ℕ
  pub maximum_waiting_data : ℕ

-- A peer with the host that it belongs to, `peer` and `* peer -> host` in the source, and the packets
-- in memory that outgoing commands point to, by their addresses.
pub record Site : Type 0 where
  pub host : Host
  pub peer : Peer
  pub packets : Store
