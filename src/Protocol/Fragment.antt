-- ===== src/Protocol/Fragment.antt =====
-- toxtun/protocol.c, enet_protocol_handle_send_fragment: the fragments of a reliable packet are
-- copied to their offsets, and the packet is dispatched when all have come.
pub mod Assembly
pub mod Whole
use mathlib.Core.List.{reverse}
use toxsh.Prelude.{
  ℕ, suc, ◌+◌, ◌-◌, Bool, true, false, not, ◌&&◌, ◌||◌, ◌==◌, ltb, leb, List, [], ◌∷◌, ◌++◌, map,
  Option, none, some, if◌then◌else◌, set, get_or, get_elem?, take, drop, length,
}
use toxsh.Wire.{Protocol, Fragment, maximum_fragment_count}
use toxsh.Wire.Command
use toxsh.Memory.{IncomingCommand, Packet}
use toxsh.State.{Channel, Site}
use toxsh.Packet.{flag_reliable}
use toxsh.Peer.Window.{is_in_window}
use toxsh.Peer.Dispatch.{dispatch_at, dispatch_reliable}
use toxsh.Peer.Queue.{QueueAllocation, Queued, queued, dummy, failed, queue_incoming_command}
use toxsh.Peer.Connection.{is_connected}
use toxsh.Protocol.Result.{Handled, done, error, fault}

-- The search for the command that the fragments go to, by their start sequence number.
pub data Start : Type 0 where
  found : ℕ → Start
  mismatch : Start
  missing : Start

-- The test on a command of the same number.
fits : Fragment → IncomingCommand → Start
fits f c =
    if Command.number c.command.command == Command.send_fragment
      && (f.total_length == c.packet.data_length)
      && (f.fragment_count == c.fragment_count)
    then found c.address
    else mismatch

-- The search from the end of incomingReliableCommands, over the reversed list.
unfoldable pub find_start : ℕ → Fragment → List IncomingCommand → Start
unfolding fits
find_start incoming f [] = missing
find_start incoming f (c ∷ cs) =
    let further = find_start incoming f cs in
    let compared =
      if leb c.reliable_sequence_number f.start_sequence_number
      then (if ltb c.reliable_sequence_number f.start_sequence_number then missing else fits f c)
      else further in
    if leb incoming f.start_sequence_number
    then (if ltb c.reliable_sequence_number incoming then further else compared)
    else if leb incoming c.reliable_sequence_number
    then missing
    else compared

-- memcpy of `new` to offset `n`.
unfoldable pub copy_to {ℓ} : {A : Type ℓ} → ℕ → List A → List A → List A
copy_to n new old = take n old ++ (new ++ drop (n + length new) old)

-- The fragment that has not come before: its bit is set, and its bytes are copied.
unfoldable pub absorb : Fragment → List ℕ → List Bool → IncomingCommand → IncomingCommand
unfolding copy_to
absorb f payload bits c =
    let room = c.packet.data_length - f.fragment_offset in
    let count =
      if ltb c.packet.data_length (f.fragment_offset + f.data_length)
      then room
      else f.data_length in
    record c {
      fragments_remaining = c.fragments_remaining - 1;
      fragments = some (set bits f.fragment_number true);
      packet = record c.packet {
        content = copy_to f.fragment_offset (map some (take count payload)) c.packet.content;
      };
    }

-- The command at an address.
unfoldable pub find_command : ℕ → List IncomingCommand → Option IncomingCommand
find_command address [] = none
find_command address (c ∷ cs) = if c.address == address then some c else find_command address cs

-- A write to the command at an address.
unfoldable pub write_command : ℕ → IncomingCommand → List IncomingCommand → List IncomingCommand
write_command address new [] = []
write_command address new (c ∷ cs) =
    if c.address == address then new ∷ cs else c ∷ write_command address new cs

-- The end of the handler on the command `c`. Only a bitmap that is there is read.
unfoldable pub record_fragment :
    Fragment → List ℕ → List ℕ → ℕ → Channel → IncomingCommand → Site → Handled
unfolding absorb write_command dispatch_at dispatch_reliable
record_fragment f payload rest i ch c s = elim c.fragments [
  | none ↦ fault
  | some bits ↦
      if get_or bits f.fragment_number false
      then done rest s
      else let c' = absorb f payload bits c in
        let ch' = record ch {
          incoming_reliable_commands = write_command c.address c' ch.incoming_reliable_commands;
        } in
        let s' = record s { peer = record s.peer { channels = set s.peer.channels i ch' } } in
        done rest (if ltb 0 c'.fragments_remaining then s' else dispatch_at dispatch_reliable i s')
]

-- The command is looked up again behind its queueing, which may have changed the channel.
unfoldable pub record_at : Fragment → List ℕ → List ℕ → ℕ → ℕ → Site → Handled
unfolding record_fragment find_command
record_at f payload rest i address s = elim (get_elem? s.peer.channels i) [
  | none ↦ fault
  | some ch ↦ elim (find_command address ch.incoming_reliable_commands) [
    | none ↦ fault
    | some c ↦ record_fragment f payload rest i ch c s
  ]
]

-- What follows a call of enet_peer_queue_incoming_command: `dummyCommand` has no bitmap.
unfoldable pub after_queue : Fragment → List ℕ → List ℕ → ℕ → Queued × Site → Handled
unfolding record_at
after_queue f payload rest i (queued address, s) = record_at f payload rest i address s
after_queue f payload rest i (dummy, s) = fault
after_queue f payload rest i (failed, s) = error rest s

-- The tests on the fields of a fragment.
unfoldable pub is_sound_fragment : ℕ → Fragment → Bool
is_sound_fragment maximum_packet_size f = not (
    ltb maximum_fragment_count f.fragment_count
    || leb f.fragment_count f.fragment_number
    || ltb maximum_packet_size f.total_length
    || leb f.total_length f.fragment_offset
    || ltb (f.total_length - f.fragment_offset) f.data_length)

-- From the search on.
unfoldable pub place_fragment :
    QueueAllocation → Protocol → Fragment → List ℕ → List ℕ → Channel → ℕ → Site → Handled
unfolding find_start after_queue record_at queue_incoming_command
place_fragment alloc command f payload rest ch i s =
    elim (find_start ch.incoming_reliable_sequence_number f
      (reverse ch.incoming_reliable_commands)) [
        | found address ↦ record_at f payload rest i address s
        | mismatch ↦ error rest s
        | missing ↦ after_queue f payload rest i (
            queue_incoming_command alloc
              (record command {
                header = record command.header {
                  reliable_sequence_number = f.start_sequence_number;
                };
              })
              none f.total_length flag_reliable f.fragment_count s)
      ]

-- enet_protocol_handle_send_fragment on the member `f` of `command`; `payload` is what stands behind
-- the command in the datagram.
unfoldable pub handle_send_fragment :
    QueueAllocation → Protocol → Fragment → List ℕ → Site → Handled
unfolding is_connected is_in_window is_sound_fragment place_fragment
handle_send_fragment alloc command f payload s =
    let i = command.channel_id in
    let rest = drop f.data_length payload in
    elim (get_elem? s.peer.channels i) [
      | none ↦ error payload s
      | some ch ↦
          if not (is_connected s.peer.state)
          then error payload s
          else if ltb s.host.maximum_packet_size f.data_length || ltb (length payload) f.data_length
          then error rest s
          else if not (is_in_window ch.incoming_reliable_sequence_number f.start_sequence_number)
          then done rest s
          else if is_sound_fragment s.host.maximum_packet_size f
          then place_fragment alloc command f payload rest ch i s
          else error rest s
    ]
