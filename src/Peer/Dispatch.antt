-- ===== src/Peer/Dispatch.antt =====
-- toxtun/peer.c, the dispatch of queued incoming commands. A walk over a list of commands is a
-- recursion on what is left of it; what was passed is kept in accumulators.
pub mod Order
pub mod Runs
use mathlib.Core.List.{append-nil}
use toxsh.Prelude.{
  ◌≡◌, refl, sym, ℕ, ◌+◌, ◌-◌, ◌/◌, Bool, true, not, ◌&&◌, ◌==◌, ltb, leb, List, [], ◌∷◌, ◌++◌,
  Option, none, some, if◌then◌else◌, u16, set, get_elem?,
}
use toxsh.Wire.Command
use toxsh.Memory.{IncomingCommand}
use toxsh.State.{Channel, Site}
use toxsh.Peer.Window.{reliable_window, reliable_window_size, free_reliable_windows}

-- The tests by which the reliable loop goes on.
pub is_ready : ℕ → IncomingCommand → Bool
is_ready incoming c =
    not (ltb 0 c.fragments_remaining) && (c.reliable_sequence_number == u16 (incoming + 1))

-- The channel's number after a command: its own, or that of its last fragment.
pub last_number : IncomingCommand → ℕ
last_number c =
    if ltb 0 c.fragment_count
    then u16 (c.reliable_sequence_number + (c.fragment_count - 1))
    else c.reliable_sequence_number

pub record Run : Type 0 where
  pub taken : List IncomingCommand
  pub rest : List IncomingCommand
  pub incoming : ℕ

-- The loop of enet_peer_dispatch_incoming_reliable_commands: the commands that it passes, those from
-- `currentCommand` on, and the channel's incomingReliableSequenceNumber.
pub reliable_run : ℕ → List IncomingCommand → Run
unfolding is_ready last_number
reliable_run incoming [] = record { taken = []; rest = []; incoming = incoming }
reliable_run incoming (c ∷ cs) =
    let next = reliable_run (last_number c) cs in
    if is_ready incoming c
    then record next { taken = c ∷ next.taken }
    else record { taken = []; rest = c ∷ cs; incoming = incoming }

-- Where the loop of enet_peer_dispatch_incoming_unreliable_commands stands. The list of the channel
-- is `stale ++ kept ++ pending ++` what is left: droppedCommand is the first of `kept` or what
-- follows, startCommand the first of `pending` or what follows. `moved` went to dispatchedCommands.
pub record Walk : Type 0 where
  pub stale : List IncomingCommand
  pub kept : List IncomingCommand
  pub pending : List IncomingCommand
  pub moved : List IncomingCommand
  pub unreliable : ℕ

-- `pending` joins dispatchedCommands.
abbrev move_pending : Walk → Walk
move_pending w = record w { pending = []; moved = w.moved ++ w.pending }

-- `droppedCommand` moves up to the last command before `currentCommand`, if there is one behind it.
behind_last : IncomingCommand → Walk → List IncomingCommand → Walk
behind_last c w [] = record w { kept = c ∷ [] }
behind_last c w (k ∷ []) = record w { kept = k ∷ c ∷ [] }
behind_last c w (k ∷ j ∷ ks) = behind_last c (record w { stale = w.stale ++ k ∷ [] }) (j ∷ ks)

-- A command of the channel's reliable number with fragments to come: `droppedCommand` moves up to it
-- if something is moved, or else up to the command before it.
skip_incomplete : Walk → List IncomingCommand → IncomingCommand → Walk
unfolding behind_last
skip_incomplete w (p ∷ ps) c = record (move_pending w) { stale = w.stale ++ w.kept; kept = c ∷ [] }
skip_incomplete w [] c = behind_last c w w.kept

-- A command of another reliable number, outside the window: `droppedCommand` moves behind it.
skip_outside : Walk → IncomingCommand → Walk
skip_outside w c = record (move_pending w) { stale = w.stale ++ w.kept ++ c ∷ []; kept = [] }

-- The test by which the loop breaks off: an unsequenced command does not come to it.
is_ahead : ℕ → IncomingCommand → Bool
unfolding reliable_window
is_ahead incoming c =
    let window = reliable_window incoming c.reliable_sequence_number in
    let current = incoming / reliable_window_size in
    leb current window && ltb window (current + free_reliable_windows - 1)

-- One round of the loop, `none` where it breaks off.
unreliable_step : ℕ → Walk → IncomingCommand → Option Walk
unfolding skip_incomplete skip_outside is_ahead
unreliable_step incoming w c =
    if Command.number c.command.command == Command.send_unsequenced
    then some (record w { pending = w.pending ++ c ∷ [] })
    else if c.reliable_sequence_number == incoming
    then (if ltb 0 c.fragments_remaining
        then some (skip_incomplete w w.pending c)
        else some
            (record w { pending = w.pending ++ c ∷ []; unreliable = c.unreliable_sequence_number }))
    else if is_ahead incoming c
    then none
    else some (skip_outside w c)

-- What is done behind the loop, with the commands `rest` that it did not pass.
finish : Walk → List IncomingCommand → List IncomingCommand → Walk × List IncomingCommand
finish w [] rest = (w, w.kept ++ rest)
finish w (p ∷ ps) rest = (record (move_pending w) { stale = w.stale ++ w.kept; kept = [] }, rest)

-- The loop, and the commands that stay in the list.
unreliable_walk : ℕ → Walk → List IncomingCommand → Walk × List IncomingCommand
unfolding unreliable_step finish
unreliable_walk incoming w [] = finish w w.pending []
unreliable_walk incoming w (c ∷ cs) = elim (unreliable_step incoming w c) [
  | none ↦ finish w w.pending (c ∷ cs)
  | some w' ↦ unreliable_walk incoming w' cs
]

start : Channel → Walk
start ch = record {
  stale = [];
  kept = [];
  pending = [];
  moved = [];
  unreliable = ch.incoming_unreliable_sequence_number;
}

-- enet_peer_dispatch_incoming_unreliable_commands on the channel: the channel after it, what goes to
-- the end of dispatchedCommands, and what enet_peer_remove_incoming_commands frees.
pub record Dispatched : Type 0 where
  pub channel : Channel
  pub moved : List IncomingCommand
  pub freed : List IncomingCommand

unfoldable pub dispatch_unreliable : Channel → Dispatched
unfolding unreliable_walk start
dispatch_unreliable ch =
    let (w, rest) =
      unreliable_walk ch.incoming_reliable_sequence_number (start ch)
        ch.incoming_unreliable_commands in
    record {
      channel = record ch {
        incoming_unreliable_sequence_number = w.unreliable;
        incoming_unreliable_commands = rest;
      };
      moved = w.moved;
      freed = w.stale;
    }

-- What follows the loop of enet_peer_dispatch_incoming_reliable_commands. It runs the unreliable
-- dispatch if the channel's unreliable list is not empty; on the empty list that does nothing.
after_run : Channel → Run → List IncomingCommand → Dispatched
unfolding dispatch_unreliable
after_run ch r [] = record { channel = ch; moved = []; freed = [] }
after_run ch r (c ∷ cs) =
    let next = dispatch_unreliable (record ch {
      incoming_reliable_sequence_number = r.incoming;
      incoming_unreliable_sequence_number = 0;
      incoming_reliable_commands = r.rest;
    }) in
    record next { moved = (c ∷ cs) ++ next.moved }

-- enet_peer_dispatch_incoming_reliable_commands on the channel.
unfoldable pub dispatch_reliable : Channel → Dispatched
unfolding reliable_run after_run
dispatch_reliable ch =
    let r = reliable_run ch.incoming_reliable_sequence_number ch.incoming_reliable_commands in
    after_run ch r r.taken

-- What either dispatch does to the peer and its host for the commands it moves.
unfoldable pub deliver : List IncomingCommand → Site → Site
deliver [] s = s
deliver (c ∷ cs) s = record s {
  host = if s.peer.needs_dispatch then s.host else record s.host {
    dispatch_queue = s.host.dispatch_queue ++ s.peer.session.incoming_peer_id ∷ [];
  };
  peer = record s.peer {
    queues = record s.peer.queues {
      dispatched_commands = s.peer.queues.dispatched_commands ++ c ∷ cs;
    };
    needs_dispatch = true;
  };
}

-- A dispatch of the channel at index `i`.
unfoldable pub dispatch_at : (Channel → Dispatched) → ℕ → Site → Site
unfolding deliver
dispatch_at dispatch i s = elim (get_elem? s.peer.channels i) [
  | none ↦ s
  | some ch ↦
      let d = dispatch ch in
      deliver d.moved
        (record s { peer = record s.peer { channels = set s.peer.channels i d.channel } })
]

pub deliver-dispatched :
    (cs : List IncomingCommand) (s : Site)
    → (deliver cs s).peer.dispatched_commands ≡ s.peer.dispatched_commands ++ cs
unfolding deliver
deliver-dispatched [] s = sym (append-nil _)
deliver-dispatched (c ∷ cs) s = refl

pub deliver-channels :
    (cs : List IncomingCommand) (s : Site) → (deliver cs s).peer.channels ≡ s.peer.channels
unfolding deliver
deliver-channels [] s = refl
deliver-channels (c ∷ cs) s = refl

-- A dispatch puts what it moves behind what was dispatched before.
pub dispatch_at-dispatched :
    (dispatch : Channel → Dispatched) (i : ℕ) (s : Site) (ch : Channel)
    → get_elem? s.peer.channels i ≡ some ch
    → (dispatch_at dispatch i s).peer.dispatched_commands
      ≡ s.peer.dispatched_commands ++ (dispatch ch).moved
unfolding dispatch_at
dispatch_at-dispatched dispatch i s ch e =
    rw (e, dispatch_at)
      (deliver-dispatched (dispatch ch).moved (record s {
        peer = record s.peer { channels = set s.peer.channels i (dispatch ch).channel };
      }))
