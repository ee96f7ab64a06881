-- ===== src/Memory.antt =====
-- ENetPacket (toxtun/enetinc/enet/enet.h, toxtun/packet.c) and the records of the queues.
-- A byte that was allocated and never written is `none`.
use toxsh.Prelude.{ℕ, Bool, List, Option}
use toxsh.Wire.{Protocol}

-- ENetPacket without its callback and its user's pointer. `reference_count` counts the queue
-- entries that hold it.
pub record Packet : Type 0 where
  pub reference_count : ℕ
  pub flags : ℕ
  pub content : List (Option ℕ)
  pub data_length : ℕ

-- ENetIncomingCommand. `address` is the pointer that malloc returned for it; `fragments` is the
-- bitmap of the fragments that have arrived, bit by bit, `none` for NULL.
pub record IncomingCommand : Type 0 where
  pub address : ℕ
  pub reliable_sequence_number : ℕ
  pub unreliable_sequence_number : ℕ
  pub command : Protocol
  pub fragment_count : ℕ
  pub fragments_remaining : ℕ
  pub fragments : Option (List Bool)
  pub packet : Packet

-- ENetOutgoingCommand. `packet` is the address of its packet.
pub record OutgoingCommand : Type 0 where
  pub reliable_sequence_number : ℕ
  pub unreliable_sequence_number : ℕ
  pub sent_time : ℕ
  pub round_trip_timeout : ℕ
  pub round_trip_timeout_limit : ℕ
  pub fragment_offset : ℕ
  pub fragment_length : ℕ
  pub send_attempts : ℕ
  pub command : Protocol
  pub packet : Option ℕ

-- ENetAcknowledgement
pub record Acknowledgement : Type 0 where
  pub sent_time : ℕ
  pub command : Protocol

-- The packets in memory that outgoing commands point to, by their addresses.
abbrev pub Store : Type 0
Store = ℕ → Option Packet
