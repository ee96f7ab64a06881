-- ===== src/Peer/Send.antt =====
-- toxtun/peer.c, enet_peer_send: a packet becomes one command, or the fragments of a large one; and
-- enet_peer_receive.
pub mod Chunks
pub mod Pieces
pub mod Numbers
use toxsh.Prelude.{
  ℕ, zero, suc, ◌+◌, ◌-◌, ◌*◌, ◌/◌, ◌%◌, Bool, true, false, not, ◌&&◌, ◌||◌, ◌==◌, ltb, leb, List,
  [], ◌∷◌, Option, none, some, if◌then◌else◌, u16, u32, get_elem?, length, has_bit, bit_or, bit_and,
  take, drop,
}
use toxsh.Wire.{
  Protocol, Body, Fragment, send_fragment, send_reliable, send_unreliable, send_unsequenced,
  maximum_fragment_count,
}
use toxsh.Wire.Command
use toxsh.Memory.{OutgoingCommand, IncomingCommand, Packet}
use toxsh.State.{Channel, Peer, Site}
use toxsh.Packet.{flag_reliable, flag_unsequenced, flag_unreliable_fragment}
use toxsh.Peer.Connection.{one_less}
use toxsh.Peer.Release.{retain}
use toxsh.Peer.Outgoing.{is_open, new_outgoing, setup_outgoing_command, queue_outgoing_command}

-- `fragmentLength` before the loop: what an MTU has room for, behind an ENetProtocolHeader, an
-- ENetProtocolSendFragment and a checksum, if there is one. The difference is a size_t.
unfoldable pub fragment_room : Bool → ℕ → ℕ
fragment_room checksum mtu =
    (mtu + 18446744073709551616 - 28 - (if checksum then 4 else 0)) % 18446744073709551616

-- What the fragments of a packet share.
pub record Cut : Type 0 where
  pub packet : ℕ
  pub command : ℕ
  pub channel_id : ℕ
  pub start_sequence_number : ℕ
  pub count : ℕ
  pub total : ℕ

-- One fragment.
unfoldable pub fragment_at : Cut → ℕ → ℕ → ℕ → OutgoingCommand
unfolding new_outgoing
fragment_at cut number offset length =
    new_outgoing
      (record {
        header = record {
          command = cut.command;
          channel_id = cut.channel_id;
          reliable_sequence_number = 0;
        };
        body = send_fragment (record {
          start_sequence_number = cut.start_sequence_number;
          data_length = u16 length;
          fragment_count = cut.count;
          fragment_number = number;
          total_length = u32 cut.total;
          fragment_offset = offset;
        });
      })
      (some cut.packet) offset (u16 length)

-- The loop, with the result of each malloc: `none` where one fails. The fuel is the number of rounds
-- at most.
unfoldable pub fragments_from : (ℕ → Bool) → Cut → ℕ → ℕ → ℕ → ℕ → Option (List OutgoingCommand)
unfolding fragment_at
fragments_from mallocs cut zero number offset room = some []
fragments_from mallocs cut (suc fuel) number offset room =
    let size = if ltb (cut.total - offset) room then cut.total - offset else room in
    let later = fragments_from mallocs cut fuel (u32 (number + 1)) (u32 (offset + size)) size in
    if ltb offset cut.total
    then (if mallocs number
        then elim later [ none ↦ none | some cs ↦ some (fragment_at cut number offset size ∷ cs) ]
        else none)
    else some []

-- The loop that sets the fragments up, in order.
unfoldable pub setup_all : List OutgoingCommand → Peer → Option Peer
unfolding setup_outgoing_command
setup_all [] p = some p
setup_all (c ∷ cs) p = elim (setup_outgoing_command c p) [ none ↦ none | some p' ↦ setup_all cs p' ]

-- The fragments are unreliable only if the packet's flags say so and the channel has a number left.
unfoldable pub cut_of : ℕ → Packet → ℕ → Channel → ℕ → Cut
cut_of address packet channel_id ch count =
    let unreliable =
      bit_and packet.flags (bit_or flag_reliable flag_unreliable_fragment)
        == flag_unreliable_fragment
      && ltb ch.outgoing_unreliable_sequence_number 65535 in
    record {
      packet = address;
      command =
          if unreliable
          then Command.send_unreliable_fragment
          else bit_or Command.send_fragment Command.flag_acknowledge;
      channel_id = channel_id;
      start_sequence_number =
          if unreliable
          then u16 (ch.outgoing_unreliable_sequence_number + 1)
          else u16 (ch.outgoing_reliable_sequence_number + 1);
      count = count;
      total = packet.data_length;
    }

-- A packet of more than `room` bytes. With no room, the loop would not end, after a division by 0.
unfoldable pub send_fragments :
    (ℕ → Bool) → ℕ → Packet → ℕ → Channel → ℕ → Site → Option (Bool × Site)
unfolding fragments_from setup_all cut_of retain
send_fragments mallocs address packet channel_id ch room s =
    let count = u32 ((packet.data_length + room - 1) / room) in
    let cut = cut_of address packet channel_id ch count in
    if room == 0
    then none
    else if ltb maximum_fragment_count count
    then some (false, s)
    else elim (fragments_from mallocs cut packet.data_length 0 0 room) [
      | none ↦ some (false, s)
      | some cs ↦ elim (retain (length cs) address s.packets) [
        | none ↦ none
        | some store ↦ elim (setup_all cs s.peer) [
          | none ↦ none
          | some p ↦ some (true, record s { peer = p; packets = store })
        ]
      ]
    ]

-- The command of a packet that is sent whole, by its flags and its channel.
unfoldable pub whole_command : Packet → ℕ → Channel → Protocol
whole_command packet channel_id ch =
    let size = u16 packet.data_length in
    if bit_and packet.flags (bit_or flag_reliable flag_unsequenced) == flag_unsequenced
    then record {
      header = record {
        command = bit_or Command.send_unsequenced Command.flag_unsequenced;
        channel_id = channel_id;
        reliable_sequence_number = 0;
      };
      body = send_unsequenced 0 size;
    }
    else if has_bit packet.flags 0 || leb 65535 ch.outgoing_unreliable_sequence_number
    then record {
      header = record {
        command = bit_or Command.send_reliable Command.flag_acknowledge;
        channel_id = channel_id;
        reliable_sequence_number = 0;
      };
      body = send_reliable size;
    }
    else record {
      header = record {
        command = Command.send_unreliable;
        channel_id = channel_id;
        reliable_sequence_number = 0;
      };
      body = send_unreliable 0 size;
    }

-- enet_peer_send on the packet at `address`: whether it returns 0, and the site; `none` where it leaves
-- its memory or does not end. `checksum` says whether the host has one; `mallocs` the result of each
-- malloc.
unfoldable pub peer_send : Bool → (ℕ → Bool) → ℕ → ℕ → Site → Option (Bool × Site)
unfolding is_open fragment_room send_fragments whole_command queue_outgoing_command
peer_send checksum mallocs channel_id address s = elim (s.packets address) [
  | none ↦ none
  | some packet ↦ elim (get_elem? s.peer.channels channel_id) [
    | none ↦ some (false, s)
    | some ch ↦
        if not (is_open s.peer.state) || ltb s.host.maximum_packet_size packet.data_length
        then some (false, s)
        else if ltb (fragment_room checksum s.peer.mtu) packet.data_length
        then send_fragments mallocs address packet channel_id ch (fragment_room checksum s.peer.mtu)
            s
        else queue_outgoing_command (mallocs 0) (whole_command packet channel_id ch) (some address)
            0 (u16 packet.data_length) s
  ]
]

-- `totalWaitingData -= dataLength` on a size_t.
unfoldable pub less_waiting : ℕ → ℕ → ℕ
less_waiting total n = (total + 18446744073709551616 - n) % 18446744073709551616

-- enet_peer_receive: the oldest packet that was dispatched, with its channel.
unfoldable pub receive : Peer → Option (ℕ × Packet) × Peer
unfolding less_waiting one_less
receive p = elim p.queues.dispatched_commands [
  | [] ↦ (none, p)
  | c ∷ cs ↦ (
    some (
      c.command.channel_id,
      record c.packet { reference_count = one_less c.packet.reference_count },
    ),
    record p {
      queues = record p.queues { dispatched_commands = cs };
      total_waiting_data = less_waiting p.total_waiting_data c.packet.data_length;
    },
  )
]
