-- ===== src/Protocol/Data.antt =====
-- toxtun/protocol.c: the handlers of the commands that carry a whole packet.
pub mod Once
use toxsh.Prelude.{
  ℕ, ◌+◌, ◌-◌, ◌%◌, Bool, true, false, not, ◌||◌, ◌==◌, ltb, leb, List, Option, none, some,
  if◌then◌else◌, take, drop, length, get_elem?, get_or, set, replicate, u16,
}
use toxsh.Wire.{Protocol}
use toxsh.State.{Site, Peer}
use toxsh.Packet.{flag_reliable, flag_unsequenced}
use toxsh.Peer.Connection.{is_connected}
use toxsh.Peer.Queue.{QueueAllocation, Queued, queued, dummy, failed, queue_incoming_command}
use toxsh.Protocol.Result.{Handled, done, error}

-- What a handler returns for the result of enet_peer_queue_incoming_command.
unfoldable pub after_queueing : List ℕ → Queued × Site → Handled
after_queueing rest (queued address, s) = done rest s
after_queueing rest (dummy, s) = done rest s
after_queueing rest (failed, s) = error rest s

-- The guards that the handlers begin with, on the data behind the command: `handle` is what follows,
-- with the data left behind this command's.
unfoldable pub with_data : Protocol → ℕ → List ℕ → Site → (List ℕ → Handled) → Handled
unfolding is_connected
with_data command data_length payload s handle =
    let rest = drop data_length payload in
    if leb (length s.peer.channels) command.channel_id || not (is_connected s.peer.state)
    then error payload s
    else if ltb s.host.maximum_packet_size data_length || ltb (length payload) data_length
    then error rest s
    else handle rest

-- enet_protocol_handle_send_reliable
unfoldable pub handle_send_reliable : QueueAllocation → Protocol → ℕ → List ℕ → Site → Handled
unfolding with_data after_queueing queue_incoming_command
handle_send_reliable alloc command data_length payload s =
    with_data command data_length payload s (λ rest.
      after_queueing rest
        (queue_incoming_command alloc command (some payload) data_length flag_reliable 0 s))

-- enet_protocol_handle_send_unreliable
unfoldable pub handle_send_unreliable : QueueAllocation → Protocol → ℕ → List ℕ → Site → Handled
unfolding with_data after_queueing queue_incoming_command
handle_send_unreliable alloc command data_length payload s =
    with_data command data_length payload s (λ rest.
      after_queueing rest (queue_incoming_command alloc command (some payload) data_length 0 0 s))

-- ENET_PEER_UNSEQUENCED_WINDOW_SIZE, and with ENET_PEER_FREE_UNSEQUENCED_WINDOWS
abbrev pub unsequenced_window_size : ℕ
unsequenced_window_size = 1024

abbrev pub free_unsequenced : ℕ
free_unsequenced = 32768

-- The group of a command is not too far ahead.
unfoldable pub is_group_in_reach : ℕ → ℕ → Bool
is_group_in_reach incoming group =
    ltb (if ltb group incoming then group + 65536 else group) (incoming + free_unsequenced)

-- The window moves to the group's.
unfoldable pub move_window : ℕ → Peer → Peer
move_window group p =
    let first = group - group % unsequenced_window_size in
    if first == p.incoming_unsequenced_group then p else record p {
      incoming_unsequenced_group = first;
      unsequenced_window = replicate unsequenced_window_size false;
    }

-- The bit of the group that has come.
unfoldable pub mark_group : ℕ → Site → Site
mark_group group s = record s {
  peer = record s.peer {
    unsequenced_window = set s.peer.unsequenced_window (group % unsequenced_window_size) true;
  };
}

-- What follows the queueing of an unsequenced command.
unfoldable pub after_unsequenced : ℕ → List ℕ → Queued × Site → Handled
unfolding mark_group
after_unsequenced group rest (queued address, s) = done rest (mark_group group s)
after_unsequenced group rest (dummy, s) = done rest (mark_group group s)
after_unsequenced group rest (failed, s) = error rest s

-- enet_protocol_handle_send_unsequenced, from the guards on. A window that has just moved has no bit
-- set, so that the test of the bit passes there, which the source skips.
unfoldable pub unsequenced_in :
    QueueAllocation → Protocol → ℕ → ℕ → List ℕ → Site → List ℕ → Handled
unfolding is_group_in_reach move_window after_unsequenced queue_incoming_command
unsequenced_in alloc command group data_length payload s rest =
    let p = move_window group s.peer in
    if not (is_group_in_reach s.peer.incoming_unsequenced_group group)
    then done rest s
    else if get_or p.unsequenced_window (group % unsequenced_window_size) false
    then done rest s
    else after_unsequenced group rest (
        queue_incoming_command alloc command (some payload) data_length flag_unsequenced 0
          (record s { peer = p }))

-- enet_protocol_handle_send_unsequenced
unfoldable pub handle_send_unsequenced :
    QueueAllocation → Protocol → ℕ → ℕ → List ℕ → Site → Handled
unfolding with_data unsequenced_in
handle_send_unsequenced alloc command group data_length payload s =
    with_data command data_length payload s
      (unsequenced_in alloc command group data_length payload s)
