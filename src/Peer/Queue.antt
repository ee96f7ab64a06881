-- ===== src/Peer/Queue.antt =====
-- toxtun/peer.c, enet_peer_queue_incoming_command: where a command from the network goes in its
-- channel, and what is dispatched on it.
pub mod Order
pub mod Cases
pub mod Delivery
pub mod Stream
pub mod Progress
use mathlib.Core.Option
use mathlib.Core.List.{reverse, reverse_aux}
use toxsh.Prelude.{
  ℕ, ◌+◌, u16, Bool, true, false, ◌&&◌, ◌||◌, ◌==◌, ltb, leb, List, [], ◌∷◌, ◌++◌, Option, none,
  some, if◌then◌else◌, set, get_elem?, replicate,
}
use toxsh.Wire.{Protocol, maximum_fragment_count, unreliable_sequence_number_of}
use toxsh.Wire.Command
use toxsh.Memory.{IncomingCommand, Packet}
use toxsh.State.{Channel, Site, PeerState, disconnect_later}
use toxsh.Packet.{Allocation, packet_create}
use toxsh.Peer.Window.{is_in_window}
use toxsh.Peer.Dispatch.{dispatch_reliable, dispatch_unreliable, dispatch_at, Dispatched}

-- An ENetListIterator: what stands before it, nearest first, with the node itself in front, and
-- what stands behind it.
pub record Position : Type 0 where
  pub before : List IncomingCommand
  pub after : List IncomingCommand

-- The search from the end of incomingReliableCommands; `none` on the command's own number.
unfoldable pub search_reliable :
    ℕ → ℕ → List IncomingCommand → List IncomingCommand → Option Position
search_reliable incoming number [] after = some (record { before = []; after = after })
search_reliable incoming number (c ∷ cs) after =
    let further = search_reliable incoming number cs (c ∷ after) in
    let here = some (record { before = c ∷ cs; after = after }) in
    let compared =
      if leb c.reliable_sequence_number number
      then (if ltb c.reliable_sequence_number number then here else none)
      else further in
    if leb incoming number
    then (if ltb c.reliable_sequence_number incoming then further else compared)
    else if leb incoming c.reliable_sequence_number
    then here
    else compared

-- The search from the end of incomingUnreliableCommands. (The test for an unsequenced command in
-- the source reads `command`, which is none here.)
unfoldable pub search_unreliable :
    ℕ → ℕ → ℕ → List IncomingCommand → List IncomingCommand → Option Position
search_unreliable incoming number unreliable [] after = some (record { before = []; after = after })
search_unreliable incoming number unreliable (c ∷ cs) after =
    let further = search_unreliable incoming number unreliable cs (c ∷ after) in
    let here = some (record { before = c ∷ cs; after = after }) in
    let compared =
      if ltb c.reliable_sequence_number number
      then here
      else if ltb number c.reliable_sequence_number
      then further
      else if leb c.unreliable_sequence_number unreliable
      then (if ltb c.unreliable_sequence_number unreliable then here else none)
      else further in
    if leb incoming number
    then (if ltb c.reliable_sequence_number incoming then further else compared)
    else if leb incoming c.reliable_sequence_number
    then here
    else compared

-- enet_list_insert at the node behind the position.
pub insert_at : Position → IncomingCommand → List IncomingCommand
insert_at p c = reverse_aux p.before (c ∷ p.after)

-- What the mallocs give: the packet's, the command's address, and whether there is a bitmap.
pub record QueueAllocation : Type 0 where
  pub packet : Allocation
  pub command : Option ℕ
  pub bitmap : Bool

-- The result: the address of the new command, that of `dummyCommand`, or NULL.
pub data Queued : Type 0 where
  queued : ℕ → Queued
  dummy : Queued
  failed : Queued

unfoldable pub is_disconnect_later : PeerState → Bool
is_disconnect_later disconnect_later = true
is_disconnect_later _ = false

-- discardCommand
discarded : ℕ → Queued
discarded fragment_count = if ltb 0 fragment_count then failed else dummy

-- The two lists of a channel, by the command's number.
pub data Lane : Type 0 where
  reliable_lane : Lane
  unreliable_lane : Lane

-- Lane, unreliable number and place of a command, `none` where it is discarded: the window test and
-- the first `switch`.
unfoldable pub place : Protocol → Channel → Option (Lane × ℕ × Position)
unfolding search_reliable search_unreliable unreliable_sequence_number_of is_in_window
place command ch =
    let kind = Command.number command.command in
    let number = command.reliable_sequence_number in
    let incoming = ch.incoming_reliable_sequence_number in
    let unreliable = unreliable_sequence_number_of command.body in
    if kind == Command.send_unsequenced
    then some (unreliable_lane, 0, record { before = []; after = ch.incoming_unreliable_commands })
    else if is_in_window incoming number
    then (if kind == Command.send_fragment || kind == Command.send_reliable
        then (if number == incoming
            then none
            else Option.map (λ p. (reliable_lane, 0, p))
                (search_reliable incoming number (reverse ch.incoming_reliable_commands) []))
        else if kind == Command.send_unreliable || kind == Command.send_unreliable_fragment
        then (if number == incoming && leb unreliable ch.incoming_unreliable_sequence_number
            then none
            else Option.map (λ p. (unreliable_lane, unreliable, p))
                (search_unreliable incoming number unreliable
                  (reverse ch.incoming_unreliable_commands) []))
        else none)
    else none

-- The bitmap of a new command, without the padding to words: NULL without fragments; `none` where there is to be one and is not.
bitmap : Bool → ℕ → Option (Option (List Bool))
bitmap alloc fragment_count =
    if ltb 0 fragment_count
    then (if leb fragment_count maximum_fragment_count && alloc
        then some (some (replicate fragment_count false))
        else none)
    else some none

-- The record of a new command.
new_command : ℕ → Protocol → ℕ → ℕ → Packet → Option (List Bool) → IncomingCommand
new_command address command unreliable fragment_count packet fragments = record {
  address = address;
  reliable_sequence_number = command.reliable_sequence_number;
  unreliable_sequence_number = u16 unreliable;
  command = command;
  fragment_count = fragment_count;
  fragments_remaining = fragment_count;
  fragments = fragments;
  packet = record packet { reference_count = packet.reference_count + 1 };
}

-- The new command in its list.
with_command : Channel → Lane → List IncomingCommand → Channel
with_command ch reliable_lane cs = record ch { incoming_reliable_commands = cs }
with_command ch unreliable_lane cs = record ch { incoming_unreliable_commands = cs }

-- The dispatch of a lane, as the second `switch` chooses it.
pub dispatch_of : Lane → Channel → Dispatched
unfolding dispatch_reliable dispatch_unreliable
dispatch_of reliable_lane = dispatch_reliable
dispatch_of unreliable_lane = dispatch_unreliable

-- What is done once packet, command and bitmap are there.
unfoldable pub enqueue : Lane → Position → IncomingCommand → Channel → ℕ → Site → Site
unfolding insert_at with_command dispatch_of dispatch_at
enqueue lane p c ch i s = dispatch_at (dispatch_of lane) i (record s {
  peer = record s.peer {
    total_waiting_data = s.peer.total_waiting_data + c.packet.data_length;
    channels = set s.peer.channels i (with_command ch lane (insert_at p c));
  };
})

-- The allocations of a command that has a place, in the order of the source.
unfoldable pub obtain :
    QueueAllocation → Protocol → Option (List ℕ) → ℕ → ℕ → ℕ → ℕ → Option IncomingCommand
unfolding packet_create bitmap new_command
obtain alloc command given data_length flags fragment_count unreliable =
    elim (packet_create alloc.packet given data_length flags) [
      | none ↦ none
      | some packet ↦ elim alloc.command [
        | none ↦ none
        | some address ↦ elim (bitmap alloc.bitmap fragment_count) [
          | none ↦ none
          | some fragments ↦
              some (new_command address command unreliable fragment_count packet fragments)
        ]
      ]
    ]

-- enet_peer_queue_incoming_command on the channel at index `i`, which holds `ch`.
pub queue_in :
    QueueAllocation → Protocol → Option (List ℕ) → ℕ → ℕ → ℕ → Channel → ℕ → Site → Queued × Site
unfolding place obtain enqueue discarded is_disconnect_later
queue_in alloc command given data_length flags fragment_count ch i s =
    if is_disconnect_later s.peer.state
    then (discarded fragment_count, s)
    else elim (place command ch) [
      | none ↦ (discarded fragment_count, s)
      | some (lane, unreliable, p) ↦
          if leb s.host.maximum_waiting_data s.peer.total_waiting_data
          then (failed, s)
          else elim (obtain alloc command given data_length flags fragment_count unreliable) [
            | none ↦ (failed, s)
            | some c ↦ (queued c.address, enqueue lane p c ch i s)
          ]
    ]

-- enet_peer_queue_incoming_command. Its callers have tested that the channel is there; without one
-- C reads out of bounds.
unfoldable pub queue_incoming_command :
    QueueAllocation → Protocol → Option (List ℕ) → ℕ → ℕ → ℕ → Site → Queued × Site
unfolding queue_in
queue_incoming_command alloc command given data_length flags fragment_count s =
    elim (get_elem? s.peer.channels command.channel_id) [
      | none ↦ (failed, s)
      | some ch ↦
          queue_in alloc command given data_length flags fragment_count ch command.channel_id s
    ]
