-- ===== src/Wire.antt =====
-- toxtun/enetinc/enet/protocol.h: the commands of a datagram, and commandSizes of
-- toxtun/protocol.c. Fields are held in host order: a value here is what ENET_NET_TO_HOST_16 and
-- ENET_NET_TO_HOST_32 give back on the receiving side. The union ENetProtocol is a header and one
-- of its members.
pub mod Command
pub mod Layout
use toxsh.Prelude.{ℕ, ◌*◌, List, [], ◌∷◌, get_or}

-- The limits of protocol.h.
abbrev pub minimum_mtu : ℕ
minimum_mtu = 576

abbrev pub maximum_mtu : ℕ
maximum_mtu = 4096

abbrev pub maximum_packet_commands : ℕ
maximum_packet_commands = 32

abbrev pub minimum_window_size : ℕ
minimum_window_size = 4096

abbrev pub maximum_window_size : ℕ
maximum_window_size = 65536

abbrev pub minimum_channel_count : ℕ
minimum_channel_count = 1

abbrev pub maximum_channel_count : ℕ
maximum_channel_count = 255

abbrev pub maximum_peer_id : ℕ
maximum_peer_id = 0xfff

abbrev pub maximum_fragment_count : ℕ
maximum_fragment_count = 1024 * 1024

-- ENetProtocolCommandHeader
pub record CommandHeader : Type 0 where
  pub command : ℕ
  pub channel_id : ℕ
  pub reliable_sequence_number : ℕ

-- ENetProtocolSendFragment, behind its header
pub record Fragment : Type 0 where
  pub start_sequence_number : ℕ
  pub data_length : ℕ
  pub fragment_count : ℕ
  pub fragment_number : ℕ
  pub total_length : ℕ
  pub fragment_offset : ℕ

-- The part that ENetProtocolConnect and ENetProtocolVerifyConnect share.
pub record Handshake : Type 0 where
  pub outgoing_peer_id : ℕ
  pub incoming_session_id : ℕ
  pub outgoing_session_id : ℕ
  pub mtu : ℕ
  pub window_size : ℕ
  pub channel_count : ℕ
  pub incoming_bandwidth : ℕ
  pub outgoing_bandwidth : ℕ
  pub packet_throttle_interval : ℕ
  pub packet_throttle_acceleration : ℕ
  pub packet_throttle_deceleration : ℕ
  pub connect_id : ℕ

-- The members of the union ENetProtocol, behind the header.
pub data Body : Type 0 where
  acknowledge : ℕ → ℕ → Body
  connect : Handshake → ℕ → Body
  verify_connect : Handshake → Body
  disconnect : ℕ → Body
  ping : Body
  send_reliable : ℕ → Body
  send_unreliable : ℕ → ℕ → Body
  send_unsequenced : ℕ → ℕ → Body
  send_fragment : Fragment → Body
  bandwidth_limit : ℕ → ℕ → Body
  throttle_configure : ℕ → ℕ → ℕ → Body

-- ENetProtocol
pub record Protocol : Type 0 where
  pub header : CommandHeader
  pub open header use *
  pub body : Body

-- `sizeof` of each command, as commandSizes lists them.
abbrev pub command_sizes : List ℕ
command_sizes = 0 ∷ 8 ∷ 48 ∷ 44 ∷ 8 ∷ 4 ∷ 6 ∷ 8 ∷ 24 ∷ 8 ∷ 12 ∷ 16 ∷ 24 ∷ []

-- enet_protocol_command_size. The table has 13 entries; a number past it is out of range in C, and
-- 0 here.
unfoldable pub command_size : ℕ → ℕ
command_size c = get_or command_sizes (Command.number c) 0

-- `sendUnreliable.unreliableSequenceNumber` read through the union: the first two bytes behind the
-- header, which in a fragment are its start sequence number. Only these two members are so read.
unfoldable pub unreliable_sequence_number_of : Body → ℕ
unreliable_sequence_number_of (send_unreliable n len) = n
unreliable_sequence_number_of (send_fragment f) = f.start_sequence_number
unreliable_sequence_number_of _ = 0
