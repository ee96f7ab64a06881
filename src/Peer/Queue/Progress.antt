-- ===== src/Peer/Queue/Progress.antt =====
-- The next message is handed over as soon as it comes.
use mathlib.Core.Option
use mathlib.Core.List.{reverse, reverse_aux}
use toxsh.Prelude.{
  ℕ, suc, ◌+◌, ◌%◌, ◌<◌, ◌≡◌, ◌≢◌, refl, ap, ◌∙◌, true, false, List, [], ◌∷◌, none, some, arith,
  length, length-append, leb, get_elem?, get_elem?-set, set, Option-cases, inl, inr,
}
use toxsh.Wire.{Protocol}
use toxsh.Memory.{IncomingCommand}
use toxsh.State.{Channel, Site}
use toxsh.Packet.{flag_reliable, packet_create}
use toxsh.Peer.Window.{is_in_window_iff}
use toxsh.Peer.Dispatch.{dispatch_reliable, dispatch_at-dispatched}
use toxsh.Peer.Dispatch.Runs.{Receives, dispatch_reliable-moves}
use toxsh.Peer.Queue.{
  Position, QueueAllocation, place, obtain, enqueue, queue_in, queue_incoming_command,
  reliable_lane, is_disconnect_later,
}
use toxsh.Peer.Messages.{reach, IsMessage, Holds-mono, reverse_aux-HoldsBack}
use toxsh.Peer.Queue.Order.{search-front}
use toxsh.Peer.Queue.Stream.{Received, Received-Invariant}
use toxsh.Peer.Queue.Delivery.{Carries, place-within, obtain-IsMessage}

-- Every malloc succeeds.
pub record Succeeds (alloc : QueueAllocation) (address : ℕ) : Type 0 where
  pub packet : alloc.packet.packet ≡ true
  pub buffer : alloc.packet.buffer ≡ true
  pub command : alloc.command ≡ some address

module _ (alloc : QueueAllocation) (address : ℕ) (command : Protocol) (u : ℕ)
    (fine : Succeeds alloc address) where
  obtain-ne-none :
      (bytes : List ℕ) → obtain alloc command (some bytes) (length bytes) flag_reliable 0 u ≢ none
  unfolding obtain packet_create
  obtain-ne-none [] = ground arith
  obtain-ne-none (x ∷ xs) = ground arith

  obtain-some :
      (bytes : List ℕ)
      → (c : IncomingCommand) × (obtain alloc command (some bytes) (length bytes) flag_reliable 0 u
          ≡ some c)
  obtain-some bytes =
      elim (Option-cases (obtain alloc command (some bytes) (length bytes) flag_reliable 0 u)) [
        | inl e ↦ absurd (obtain-ne-none bytes e)
        | inr made ↦ made
      ]

module _ (body : ℕ → List ℕ) (i a : ℕ) (ch : Channel) (s : Site)
    (there : get_elem? s.peer.channels i ≡ some ch) (rec : Receives body a ch) where
  front : Position
  front = record { before = []; after = reverse_aux (reverse ch.incoming_reliable_commands) [] }

  place-next :
      (command : Protocol)
      → Carries body i (suc a) command
      → place command ch ≡ some (reliable_lane, 0, front)
  unfolding front
  place-next command carries =
      place-within body a (suc a) ch command rec carries.kind carries.number
        ((is_in_window_iff (a % 65536) (suc a % 65536) (omega arith) (omega arith)).1 (omega arith))
        (omega arith)
      ∙ ap (Option.map _) (
          search-front body a (suc a + reach) (reverse ch.incoming_reliable_commands) [] (
            reverse_aux-HoldsBack body (suc a) (suc a) ch.incoming_reliable_commands []
              (omega arith) (omega arith)
              (Holds-mono body a (suc a) (suc a) (suc a) ch.incoming_reliable_commands (omega arith)
                (omega arith) rec.held)
              tt))

  enqueue-moves :
      (c : IncomingCommand)
      → IsMessage body (suc a) c
      → length s.peer.dispatched_commands
        < length (enqueue reliable_lane front c ch i s).peer.dispatched_commands
  unfolding enqueue front
  enqueue-moves c is =
      let queue = c ∷ reverse_aux (reverse ch.incoming_reliable_commands) [] in
      let ch' : Channel = record ch { incoming_reliable_commands = queue } in
      omega (
        arith,
        ap length (
            dispatch_at-dispatched dispatch_reliable i
              (record s {
                peer = record s.peer {
                  total_waiting_data = s.peer.total_waiting_data + c.packet.data_length;
                  channels = set s.peer.channels i ch';
                };
              })
              ch' (get_elem?-set s.peer.channels i ch' there)),
        length-append s.peer.dispatched_commands (dispatch_reliable ch').moved,
        dispatch_reliable-moves ch' c _ a refl rec.incoming is.numbered is.complete,
      )

  queue_in-moves :
      (alloc : QueueAllocation) (address : ℕ) (command : Protocol)
      → Carries body i (suc a) command
      → Succeeds alloc address
      → is_disconnect_later s.peer.state ≡ false
      → leb s.host.maximum_waiting_data s.peer.total_waiting_data ≡ false
      → length s.peer.dispatched_commands
        < length
            (queue_in alloc command
              (some (body (suc a)))
              (length (body (suc a)))
              flag_reliable
              0
              ch
              i
              s).1.peer.dispatched_commands
  unfolding queue_in
  queue_in-moves alloc address command carries fine open' room =
      let (c, made) = obtain-some alloc address command 0 fine (body (suc a)) in
      rw (open', place-next command carries, room, made, queue_in)
        (enqueue-moves c (obtain-IsMessage body (suc a) alloc command 0 c carries.number made))

-- With memory, and room among the waiting data, of a peer that is not closing, a reliable message that
-- is the next of its channel is handed over at once.
pub next_is_delivered :
    (body : ℕ → List ℕ) (i : ℕ) (s : Site) (alloc : QueueAllocation) (address : ℕ)
    (command : Protocol)
    → Received body i s
    → Carries body i (suc (length s.peer.dispatched_commands)) command
    → Succeeds alloc address
    → is_disconnect_later s.peer.state ≡ false
    → s.peer.total_waiting_data < s.host.maximum_waiting_data
    → let bytes = body (suc (length s.peer.dispatched_commands)) in
      length s.peer.dispatched_commands
      < length
          (queue_incoming_command alloc command
            (some bytes)
            (length bytes)
            flag_reliable
            0
            s).1.peer.dispatched_commands
unfolding queue_incoming_command
next_is_delivered body i s alloc address command r carries fine open' room =
    let inv = Received-Invariant body i r in
    let a = length s.peer.dispatched_commands in
    let here : get_elem? s.peer.channels command.channel_id ≡ some inv.ch =
      rw carries.channel inv.there in
    let here' : Carries body command.channel_id (suc a) command = record {
      kind = carries.kind;
      channel = refl;
      number = carries.number;
    } in
    rw (here, queue_incoming_command)
      (queue_in-moves body command.channel_id a inv.ch s here inv.receives alloc address command
        here' fine open' (ground arith))
