-- ===== src/Protocol/UnreliableFragment.antt =====
-- toxtun/protocol.c, enet_protocol_handle_send_unreliable_fragment: like the handler of reliable
-- fragments, over the unreliable list of the channel.
use mathlib.Core.List.{reverse}
use toxsh.Prelude.{
  ℕ, Bool, false, not, ◌&&◌, ◌||◌, ◌==◌, ltb, leb, List, [], ◌∷◌, none, some, if◌then◌else◌, set,
  get_or, get_elem?, drop, length,
}
use toxsh.Wire.{Protocol, Fragment}
use toxsh.Wire.Command
use toxsh.Memory.{IncomingCommand}
use toxsh.State.{Channel, Site}
use toxsh.Packet.{flag_unreliable_fragment}
use toxsh.Peer.Window.{is_in_window}
use toxsh.Peer.Connection.{is_connected}
use toxsh.Peer.Dispatch.{dispatch_at, dispatch_unreliable}
use toxsh.Peer.Queue.{QueueAllocation, Queued, queued, dummy, failed, queue_incoming_command}
use toxsh.Protocol.Result.{Handled, done, error, fault}
use toxsh.Protocol.Fragment.{
  Start, found, mismatch, missing, absorb, find_command, write_command, is_sound_fragment,
}

-- The test on a command of the same two numbers.
unfoldable pub fits_unreliable : Fragment → IncomingCommand → Start
fits_unreliable f c =
    if Command.number c.command.command == Command.send_unreliable_fragment
      && (f.total_length == c.packet.data_length)
      && (f.fragment_count == c.fragment_count)
    then found c.address
    else mismatch

-- The search from the end of incomingUnreliableCommands, over the reversed list.
unfoldable pub find_unreliable_start : ℕ → ℕ → Fragment → List IncomingCommand → Start
unfolding fits_unreliable
find_unreliable_start incoming number f [] = missing
find_unreliable_start incoming number f (c ∷ cs) =
    let further = find_unreliable_start incoming number f cs in
    let by_start =
      if leb c.unreliable_sequence_number f.start_sequence_number
      then (if ltb c.unreliable_sequence_number f.start_sequence_number
          then missing
          else fits_unreliable f c)
      else further in
    let compared =
      if ltb c.reliable_sequence_number number
      then missing
      else if ltb number c.reliable_sequence_number
      then further
      else by_start in
    if leb incoming number
    then (if ltb c.reliable_sequence_number incoming then further else compared)
    else if leb incoming c.reliable_sequence_number
    then missing
    else compared

-- The end of the handler on the command `c`.
unfoldable pub record_unreliable :
    Fragment → List ℕ → List ℕ → ℕ → Channel → IncomingCommand → Site → Handled
unfolding absorb dispatch_at dispatch_unreliable write_command
record_unreliable f payload rest i ch c s = elim c.fragments [
  | none ↦ fault
  | some bits ↦
      if get_or bits f.fragment_number false
      then done rest s
      else let c' = absorb f payload bits c in
        let ch' = record ch {
          incoming_unreliable_commands = write_command c.address c' ch.incoming_unreliable_commands;
        } in
        let s' = record s { peer = record s.peer { channels = set s.peer.channels i ch' } } in
        done rest
          (if ltb 0 c'.fragments_remaining then s' else dispatch_at dispatch_unreliable i s')
]

-- The command is looked up again behind its queueing, which may have changed the channel.
unfoldable pub record_unreliable_at : Fragment → List ℕ → List ℕ → ℕ → ℕ → Site → Handled
unfolding record_unreliable find_command
record_unreliable_at f payload rest i address s = elim (get_elem? s.peer.channels i) [
  | none ↦ fault
  | some ch ↦ elim (find_command address ch.incoming_unreliable_commands) [
    | none ↦ fault
    | some c ↦ record_unreliable f payload rest i ch c s
  ]
]

-- What follows a call of enet_peer_queue_incoming_command.
unfoldable pub after_unreliable_queue : Fragment → List ℕ → List ℕ → ℕ → Queued × Site → Handled
unfolding record_unreliable_at
after_unreliable_queue f payload rest i (queued address, s) =
    record_unreliable_at f payload rest i address s
after_unreliable_queue f payload rest i (dummy, s) = fault
after_unreliable_queue f payload rest i (failed, s) = error rest s

-- From the search on.
unfoldable pub place_unreliable_fragment :
    QueueAllocation → Protocol → Fragment → List ℕ → List ℕ → Channel → ℕ → Site → Handled
unfolding find_unreliable_start after_unreliable_queue record_unreliable_at queue_incoming_command
place_unreliable_fragment alloc command f payload rest ch i s =
    elim (find_unreliable_start ch.incoming_reliable_sequence_number
      command.reliable_sequence_number f (reverse ch.incoming_unreliable_commands)) [
        | found address ↦ record_unreliable_at f payload rest i address s
        | mismatch ↦ error rest s
        | missing ↦ after_unreliable_queue f payload rest i (
            queue_incoming_command alloc command none f.total_length flag_unreliable_fragment
              f.fragment_count s)
      ]

-- A fragment of an unreliable packet that was handed over, or passed by, already.
unfoldable pub is_passed : Channel → ℕ → Fragment → Bool
is_passed ch number f =
    (number == ch.incoming_reliable_sequence_number)
    && leb f.start_sequence_number ch.incoming_unreliable_sequence_number

-- enet_protocol_handle_send_unreliable_fragment on the member `f` of `command`.
unfoldable pub handle_send_unreliable_fragment :
    QueueAllocation → Protocol → Fragment → List ℕ → Site → Handled
unfolding is_connected is_in_window is_passed is_sound_fragment place_unreliable_fragment
handle_send_unreliable_fragment alloc command f payload s =
    let i = command.channel_id in
    let number = command.reliable_sequence_number in
    let rest = drop f.data_length payload in
    elim (get_elem? s.peer.channels i) [
      | none ↦ error payload s
      | some ch ↦
          if not (is_connected s.peer.state)
          then error payload s
          else if ltb s.host.maximum_packet_size f.data_length || ltb (length payload) f.data_length
          then error rest s
          else if not (is_in_window ch.incoming_reliable_sequence_number number)
              || is_passed ch number f
          then done rest s
          else if is_sound_fragment s.host.maximum_packet_size f
          then place_unreliable_fragment alloc command f payload rest ch i s
          else error rest s
    ]
