-- ===== src/Protocol/Acknowledge.antt =====
-- toxtun/protocol.c: enet_protocol_handle_acknowledge, the removal of sent commands, and the clock of
-- toxtun/enetinc/enet/time.h.
pub mod Clock
use toxsh.Prelude.{
  ℕ, ◌+◌, ◌-◌, ◌*◌, ◌/◌, ◌%◌, ◌^◌, Bool, true, false, ◌&&◌, ◌||◌, ◌==◌, ltb, leb, List, [], ◌∷◌,
  Option, none, some, if◌then◌else◌, u32, sub32, has_bit, get_elem?, get_or, set,
}
use toxsh.Wire.Command
use toxsh.Memory.{OutgoingCommand, Store}
use toxsh.State.{
  Site, Peer, Channel, RoundTrip, Throttle, PeerState, disconnected, zombie, acknowledging_connect,
  disconnecting, disconnect_later,
}
use toxsh.Peer.Throttle.{peer_throttle}
use toxsh.Peer.Release.{release, reset_outgoing_commands}
use toxsh.Peer.Disconnect.{is_drained, peer_disconnect}
use toxsh.Protocol.Control.{Event, nothing, Outcome, notify_connect, notify_disconnect}

-- ENET_TIME_OVERFLOW
abbrev time_overflow : ℕ
time_overflow = 86400000

-- ENET_TIME_LESS
unfoldable pub time_less : ℕ → ℕ → Bool
time_less a b = leb time_overflow (sub32 a b)

-- ENET_TIME_DIFFERENCE
unfoldable pub time_difference : ℕ → ℕ → ℕ
time_difference a b = if leb time_overflow (sub32 a b) then sub32 b a else sub32 a b

-- enet_protocol_remove_sent_unreliable_commands
unfoldable pub remove_sent_unreliable_commands : Site → Site
unfolding reset_outgoing_commands
remove_sent_unreliable_commands s = record s {
  peer = record s.peer { queues = record s.peer.queues { sent_unreliable_commands = [] } };
  packets = reset_outgoing_commands s.peer.queues.sent_unreliable_commands s.packets;
}

-- The command of a number and a channel in a queue, and the queue without it.
unfoldable pub take_command :
    ℕ → ℕ → List OutgoingCommand → Option (OutgoingCommand × List OutgoingCommand)
take_command number channel [] = none
take_command number channel (c ∷ cs) =
    let later = take_command number channel cs in
    if (c.reliable_sequence_number == number) && (c.command.channel_id == channel)
    then some (c, cs)
    else elim later [ none ↦ none | some (d, ds) ↦ some (d, c ∷ ds) ]

-- The same among the commands that wait to be sent, up to one that was never sent.
unfoldable pub take_resent :
    ℕ → ℕ → List OutgoingCommand → Option (OutgoingCommand × List OutgoingCommand)
take_resent number channel [] = none
take_resent number channel (c ∷ cs) =
    let later = take_resent number channel cs in
    if ltb c.send_attempts 1
    then none
    else if (c.reliable_sequence_number == number) && (c.command.channel_id == channel)
    then some (c, cs)
    else elim later [ none ↦ none | some (d, ds) ↦ some (d, c ∷ ds) ]

-- The count of a reliable window goes down, and its bit is cleared at 0.
unfoldable pub leave_window : ℕ → Channel → Channel
leave_window w ch =
    let n = get_or ch.reliable_windows w 0 in
    if ltb 0 n
    then record ch {
      reliable_windows = set ch.reliable_windows w (n - 1);
      used_reliable_windows =
          if (n == 1) && has_bit ch.used_reliable_windows w
          then ch.used_reliable_windows - 2 ^ w
          else ch.used_reliable_windows;
    }
    else ch

-- The channel's windows after a number is acknowledged.
unfoldable pub leave_channel : ℕ → ℕ → List Channel → List Channel
unfolding leave_window
leave_channel number i chs = elim (get_elem? chs i) [
  | none ↦ chs
  | some ch ↦ set chs i (leave_window (number / 4096) ch)
]

-- What becomes of `reliableDataInTransit` with a command that was on its way.
unfoldable pub less_in_transit : Bool → OutgoingCommand → ℕ → ℕ
less_in_transit was_sent c n = elim c.packet [
  | none ↦ n
  | some a ↦ if was_sent then sub32 n c.fragment_length else n
]

-- `nextTimeout` is that of the oldest command on its way, if there is one.
unfoldable pub next_timeout_of : List OutgoingCommand → Peer → Peer
next_timeout_of [] p = p
next_timeout_of (c ∷ cs) p = record p {
  timing = record p.timing { next_timeout = u32 (c.sent_time + c.round_trip_timeout) };
}

-- The end of enet_protocol_remove_sent_reliable_command on the command that was found.
unfoldable pub drop_command : Bool → ℕ → ℕ → OutgoingCommand → Site → Site
unfolding leave_channel less_in_transit next_timeout_of release
drop_command was_sent number channel c s = record s {
  peer = next_timeout_of s.peer.queues.sent_reliable_commands (record s.peer {
    channels = leave_channel number channel s.peer.channels;
    reliable_data_in_transit = less_in_transit was_sent c s.peer.reliable_data_in_transit;
  });
  packets = release c.packet s.packets;
}

-- enet_protocol_remove_sent_reliable_command: the number of the command that was acknowledged, or
-- ENET_PROTOCOL_COMMAND_NONE.
unfoldable pub remove_sent_reliable_command : ℕ → ℕ → Site → ℕ × Site
unfolding take_command take_resent drop_command
remove_sent_reliable_command number channel s =
    let q = s.peer.queues in
    elim (take_command number channel q.sent_reliable_commands) [
      | some (c, cs) ↦ (
        Command.number c.command.header.command,
        drop_command true number channel c (record s {
          peer = record s.peer { queues = record q { sent_reliable_commands = cs } };
        }),
      )
      | none ↦ elim (take_resent number channel q.outgoing_reliable_commands) [
        | some (c, cs) ↦ (
          Command.number c.command.header.command,
          drop_command false number channel c (record s {
            peer = record s.peer { queues = record q { outgoing_reliable_commands = cs } };
          }),
        )
        | none ↦ (Command.none, s)
      ]
    ]

-- `receivedSentTime`: the low half of a time, put in the past of `now`.
unfoldable pub sent_time_of : ℕ → ℕ → ℕ
sent_time_of now sent =
    let full = now / 65536 * 65536 + sent in
    if ltb (now / 32768 % 2) (sent / 32768 % 2) then sub32 full 65536 else full

-- The mean and the variance after a sample.
unfoldable pub sample : ℕ → RoundTrip → RoundTrip
sample rtt r =
    let old = r.round_trip_time_variance - r.round_trip_time_variance / 4 in
    let up = u32 (r.round_trip_time + sub32 rtt r.round_trip_time / 8) in
    let down = sub32 r.round_trip_time (sub32 r.round_trip_time rtt / 8) in
    if leb r.round_trip_time rtt
    then record r { round_trip_time = up; round_trip_time_variance = u32 (old + sub32 rtt up / 4) }
    else record r {
      round_trip_time = down;
      round_trip_time_variance = u32 (old + sub32 down rtt / 4);
    }

-- The extremes since the last interval.
unfoldable pub extremes : RoundTrip → RoundTrip
extremes r = record r {
  lowest_round_trip_time =
      if ltb r.round_trip_time r.lowest_round_trip_time
      then r.round_trip_time
      else r.lowest_round_trip_time;
  highest_round_trip_time_variance =
      if ltb r.highest_round_trip_time_variance r.round_trip_time_variance
      then r.round_trip_time_variance
      else r.highest_round_trip_time_variance;
}

-- The end of an interval of the throttle.
unfoldable pub close_interval : ℕ → Throttle → RoundTrip → Throttle × RoundTrip
unfolding time_difference
close_interval now t r =
    if (t.packet_throttle_epoch == 0)
      || leb t.packet_throttle_interval (time_difference now t.packet_throttle_epoch)
    then (
      record t { packet_throttle_epoch = now },
      record r {
        last_round_trip_time = r.lowest_round_trip_time;
        last_round_trip_time_variance = r.highest_round_trip_time_variance;
        lowest_round_trip_time = r.round_trip_time;
        highest_round_trip_time_variance = r.round_trip_time_variance;
      },
    )
    else (t, r)

-- What a sample of the round trip time changes in the peer.
unfoldable pub measure : ℕ → ℕ → Peer → Peer
unfolding sample extremes close_interval peer_throttle
measure now rtt p =
    let (t, r) =
      close_interval now (peer_throttle rtt p.round_trip p.throttle).1
        (extremes (sample rtt p.round_trip)) in
    record p {
      throttle = t;
      round_trip = r;
      timing = record p.timing { last_receive_time = now; earliest_timeout = 0 };
    }

-- The `switch` behind the removal, by the peer's state. `none` where memory is left.
unfoldable pub after_removal : Bool → (Site → Site) → Bool → PeerState → ℕ → Site → Option Outcome
unfolding notify_connect notify_disconnect is_drained peer_disconnect
after_removal alloc flush wanted acknowledging_connect command s =
    let (event, s') = notify_connect wanted s in
    if command == Command.verify_connect
    then some (record { is_done = true; event = event; site = s' })
    else some (record { is_done = false; event = nothing; site = s })
after_removal alloc flush wanted disconnecting command s =
    let (event, s') = notify_disconnect wanted s in
    if command == Command.disconnect
    then some (record { is_done = true; event = event; site = s' })
    else some (record { is_done = false; event = nothing; site = s })
after_removal alloc flush wanted disconnect_later command s =
    if is_drained s.peer.queues
    then elim (peer_disconnect alloc flush s.peer.event_data s) [
      | none ↦ none
      | some s' ↦ some (record { is_done = true; event = nothing; site = s' })
    ]
    else some (record { is_done = true; event = nothing; site = s })
after_removal alloc flush wanted _ command s =
    some (record { is_done = true; event = nothing; site = s })

unfoldable pub is_deaf : PeerState → Bool
is_deaf disconnected = true
is_deaf zombie = true
is_deaf _ = false

-- enet_protocol_handle_acknowledge: `number` and `sent` are the command's fields, `channel` is the
-- channel in its header.
unfoldable pub handle_acknowledge : Bool → (Site → Site) → Bool → ℕ → ℕ → ℕ → Site → Option Outcome
unfolding is_deaf sent_time_of time_less time_difference measure remove_sent_reliable_command
    after_removal
handle_acknowledge alloc flush wanted number sent channel s =
    let now = s.host.service_time in
    let sent_at = sent_time_of now sent in
    let measured = record s { peer = measure now (time_difference now sent_at) s.peer } in
    let (command, s') = remove_sent_reliable_command number channel measured in
    if is_deaf s.peer.state || time_less now sent_at
    then some (record { is_done = true; event = nothing; site = s })
    else after_removal alloc flush wanted s'.peer.state command s'
