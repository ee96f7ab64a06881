-- ===== src/Protocol/Transmit.antt =====
-- toxtun/protocol.c: what of a peer's queues goes into a datagram.
pub mod Sendable
use toxsh.Prelude.{
  ℕ, suc, ◌+◌, ◌*◌, ◌/◌, ◌%◌, ◌-◌, ◌^◌, Bool, true, false, not, ◌&&◌, ◌||◌, ◌==◌, ltb, leb, max,
  bit_and, bit_or, List, [], ◌∷◌, ◌++◌, Option, none, some, if◌then◌else◌, u16, u32, get_elem?,
  get_or, set, has_bit,
}
use toxsh.Wire.{Protocol, acknowledge, command_size}
use toxsh.Wire.Command
use toxsh.Memory.{Acknowledgement, OutgoingCommand, Store}
use toxsh.State.{Site, Peer, Channel, PeerState, disconnect_later, zombie}
use toxsh.Peer.Connection.{dispatch_state}
use toxsh.Peer.Release.{release}
use toxsh.Peer.Queue.{is_disconnect_later}
use toxsh.Peer.Disconnect.{is_drained, peer_disconnect}
use toxsh.Protocol.Draft.{Draft, takes_acknowledgement, takes_unreliable, takes_reliable, put}

-- The acknowledgement that goes out.
unfoldable pub acknowledging : Acknowledgement → Protocol
acknowledging a = record {
  header = record {
    command = Command.acknowledge;
    channel_id = a.command.channel_id;
    reliable_sequence_number = a.command.reliable_sequence_number;
  };
  body = acknowledge a.command.reliable_sequence_number a.sent_time;
}

-- A disconnect that is acknowledged ends the peer.
unfoldable pub end_acknowledged : Acknowledgement → Site → Site
unfolding dispatch_state
end_acknowledged a s =
    if Command.number a.command.header.command == Command.disconnect
    then dispatch_state zombie s
    else s

-- The loop of enet_protocol_send_acknowledgements, and what is left of the queue.
unfoldable pub acknowledge_all :
    List Acknowledgement → Draft → Site → Draft × List Acknowledgement × Site
unfolding acknowledging end_acknowledged put takes_acknowledgement
acknowledge_all [] d s = (d, [], s)
acknowledge_all (a ∷ queue) d s =
    let next = acknowledge_all queue (put (acknowledging a) 8 none d) (end_acknowledged a s) in
    if takes_acknowledgement s.peer.mtu d
    then next
    else (record d { continue_sending = true }, a ∷ queue, s)

-- enet_protocol_send_acknowledgements
unfoldable pub send_acknowledgements : Draft → Site → Draft × Site
unfolding acknowledge_all
send_acknowledgements d s =
    let (d', left, s') = acknowledge_all s.peer.queues.acknowledgements d s in
    (
      d',
      record s' {
        peer = record s'.peer { queues = record s'.peer.queues { acknowledgements = left } };
      },
    )

-- The length of the data of a command, if it has a packet.
unfoldable pub data_of : OutgoingCommand → Option ℕ
data_of c = elim c.packet [ none ↦ none | some a ↦ some c.fragment_length ]

-- The state of the loop of enet_protocol_send_unreliable_outgoing_commands.
pub record Sweep : Type 0 where
  pub draft : Draft
  pub counter : ℕ
  pub store : Store
  pub sent : List OutgoingCommand

-- The throttle's counter after a command that begins a packet.
unfoldable pub next_counter : OutgoingCommand → ℕ → ℕ
next_counter c n = elim c.packet [
  | none ↦ n
  | some a ↦ if c.fragment_offset == 0 then u32 (n + 7) % 32 else n
]

-- The packet that a command begins is dropped.
unfoldable pub is_throttled : OutgoingCommand → ℕ → ℕ → Bool
is_throttled c counter throttle = elim c.packet [
  | none ↦ false
  | some a ↦ (c.fragment_offset == 0) && ltb throttle counter
]

-- Whether a command belongs to the packet that is being dropped, by both its numbers.
unfoldable pub is_dropped_with : Option (ℕ × ℕ) → OutgoingCommand → Bool
is_dropped_with none c = false
is_dropped_with (some (reliable, unreliable)) c =
    (c.reliable_sequence_number == reliable) && (c.unreliable_sequence_number == unreliable)

-- A command in the datagram. One with a packet is kept until the datagram is sent.
unfoldable pub send_one : OutgoingCommand → Sweep → Sweep
unfolding put data_of
send_one c w = record w {
  draft = put c.command (command_size c.command.header.command) (data_of c) w.draft;
  sent = elim c.packet [ none ↦ w.sent | some a ↦ w.sent ++ c ∷ [] ];
}

-- The loop, with the throttle and the MTU, and the numbers of the packet that is being dropped, if any.
unfoldable pub sweep :
    ℕ → ℕ → Option (ℕ × ℕ) → List OutgoingCommand → Sweep → Sweep × List OutgoingCommand
unfolding send_one next_counter is_throttled is_dropped_with takes_unreliable release command_size
sweep throttle mtu dropping [] w = (w, [])
sweep throttle mtu dropping (c ∷ cs) w =
    let counter = next_counter c w.counter in
    let numbers = some (c.reliable_sequence_number, c.unreliable_sequence_number) in
    let dragged = sweep throttle mtu dropping cs (record w { store = release c.packet w.store }) in
    let dropped =
      sweep throttle mtu numbers cs
        (record w { store = release c.packet w.store; counter = counter }) in
    let sent = sweep throttle mtu none cs (send_one c (record w { counter = counter })) in
    if is_dropped_with dropping c
    then dragged
    else if takes_unreliable mtu (command_size c.command.header.command) (data_of c) w.draft
    then (if is_throttled c counter throttle then dropped else sent)
    else (record w { draft = record w.draft { continue_sending = true } }, c ∷ cs)

-- The peer and its packets after the loop.
unfoldable pub after_sweep : Sweep → List OutgoingCommand → Site → Site
after_sweep w left s = record s {
  peer = record s.peer {
    throttle = record s.peer.throttle { packet_throttle_counter = w.counter };
    queues = record s.peer.queues {
      outgoing_unreliable_commands = left;
      sent_unreliable_commands = w.sent;
    };
  };
  packets = w.store;
}

-- enet_protocol_send_unreliable_outgoing_commands. A peer that waits to disconnect does so once its
-- queues are empty.
unfoldable pub send_unreliable_outgoing_commands :
    Bool → (Site → Site) → Draft → Site → Option (Draft × Site)
unfolding sweep after_sweep is_disconnect_later is_drained peer_disconnect
send_unreliable_outgoing_commands alloc flush d s =
    let (w, left) =
      sweep s.peer.throttle.packet_throttle s.peer.mtu none
        s.peer.queues.outgoing_unreliable_commands
        (record {
          draft = d;
          counter = s.peer.throttle.packet_throttle_counter;
          store = s.packets;
          sent = s.peer.queues.sent_unreliable_commands;
        }) in
    let s' = after_sweep w left s in
    if is_disconnect_later s'.peer.state && is_drained s'.peer.queues
    then elim (peer_disconnect alloc flush s'.peer.event_data s') [
      | none ↦ none
      | some t ↦ some (w.draft, t)
    ]
    else some (w.draft, s')
