-- ===== src/Protocol/Reliable.antt =====
-- toxtun/protocol.c: enet_protocol_check_timeouts and enet_protocol_send_reliable_outgoing_commands.
pub mod Sendable
use toxsh.Prelude.{
  ℕ, ◌+◌, ◌*◌, ◌/◌, ◌%◌, ◌-◌, ◌^◌, Bool, true, false, not, ◌&&◌, ◌||◌, ◌==◌, ltb, leb, max, bit_and,
  bit_or, List, [], ◌∷◌, ◌++◌, Option, none, some, if◌then◌else◌, u16, u32, sub32, get_elem?,
  get_or, set,
}
use toxsh.Wire.{command_size}
use toxsh.Memory.{OutgoingCommand}
use toxsh.State.{Site, Peer, Channel}
use toxsh.Peer.Window.{reliable_window_size}
use toxsh.Protocol.Draft.{Draft, takes_reliable, put}
use toxsh.Protocol.Control.{Event, nothing, notify_disconnect}
use toxsh.Protocol.Acknowledge.{time_less, time_difference}
use toxsh.Protocol.Transmit.{data_of}

-- `earliestTimeout` after a command that has waited too long.
unfoldable pub earlier : ℕ → ℕ → ℕ
unfolding time_less
earlier sent_time earliest =
    if (earliest == 0) || time_less sent_time earliest then sent_time else earliest

-- The test by which a peer is given up.
unfoldable pub is_given_up : ℕ → ℕ → OutgoingCommand → Peer → Bool
unfolding time_difference
is_given_up now earliest c p =
    let waited = time_difference now earliest in
    not (earliest == 0)
    && (leb p.timing.timeout_maximum waited
        || (leb c.round_trip_timeout_limit c.round_trip_timeout
            && leb p.timing.timeout_minimum waited))

-- `nextTimeout` when the first command on its way is resent: that of the command behind it, if any.
unfoldable pub retimed : List OutgoingCommand → List OutgoingCommand → ℕ → ℕ
retimed [] (d ∷ ds) old = u32 (d.sent_time + d.round_trip_timeout)
retimed kept later old = old

-- The peer after one command is taken back to be resent; `kept` and `later` stay on their way.
unfoldable pub take_back :
    OutgoingCommand → ℕ → List OutgoingCommand → List OutgoingCommand → Peer → Peer
unfolding retimed
take_back c earliest kept later p = record p {
  reliable_data_in_transit = elim c.packet [
    | none ↦ p.reliable_data_in_transit
    | some a ↦ sub32 p.reliable_data_in_transit c.fragment_length
  ];
  loss = record p.loss { packets_lost = u32 (p.loss.packets_lost + 1) };
  timing = record p.timing {
    earliest_timeout = earliest;
    next_timeout = retimed kept later p.timing.next_timeout;
  };
}

-- The loop: the commands that stay on their way, those that are resent, the peer, and whether it is
-- given up.
pub record Timeouts : Type 0 where
  pub kept : List OutgoingCommand
  pub resent : List OutgoingCommand
  pub peer : Peer
  pub is_expired : Bool

unfoldable pub timeouts :
    ℕ → List OutgoingCommand → List OutgoingCommand → List OutgoingCommand → Peer → Timeouts
unfolding earlier is_given_up take_back time_difference
timeouts now kept resent [] p = record {
  kept = kept;
  resent = resent;
  peer = p;
  is_expired = false;
}
timeouts now kept resent (c ∷ cs) p =
    let earliest = earlier c.sent_time p.timing.earliest_timeout in
    let stays = timeouts now (kept ++ c ∷ []) resent cs p in
    let again =
      timeouts now kept
        (resent ++ record c { round_trip_timeout = u32 (c.round_trip_timeout * 2) } ∷ []) cs
        (take_back c earliest kept cs p) in
    if ltb (time_difference now c.sent_time) c.round_trip_timeout
    then stays
    else if is_given_up now earliest c p
    then record {
      kept = kept ++ c ∷ cs;
      resent = resent;
      peer = record p { timing = record p.timing { earliest_timeout = earliest } };
      is_expired = true;
    }
    else again

-- enet_protocol_check_timeouts: whether the peer was given up, what is reported, and the site. What is
-- resent stands before what waits already.
unfoldable pub check_timeouts : Bool → Site → Bool × Event × Site
unfolding timeouts notify_disconnect
check_timeouts wanted s =
    let t = timeouts s.host.service_time [] [] s.peer.queues.sent_reliable_commands s.peer in
    let s' = record s {
      peer = record t.peer {
        queues = record t.peer.queues {
          sent_reliable_commands = t.kept;
          outgoing_reliable_commands = t.resent ++ t.peer.queues.outgoing_reliable_commands;
        };
      };
    } in
    let (event, s'') = notify_disconnect wanted s' in
    if t.is_expired then (true, event, s'') else (false, nothing, s')

-- The variables of the loop of enet_protocol_send_reliable_outgoing_commands.
pub record Flow : Type 0 where
  pub draft : Draft
  pub peer : Peer
  pub window_exceeded : Bool
  pub window_wrap : Bool
  pub can_ping : Bool

-- The reliable windows in front of a command that is the first of its window are not free.
unfoldable pub wraps : Channel → OutgoingCommand → Bool
wraps ch c =
    let w = c.reliable_sequence_number / reliable_window_size in
    let mask = bit_or (255 * 2 ^ w) (255 / 2 ^ (16 - w)) in
    ltb c.send_attempts 1
    && ((c.reliable_sequence_number % reliable_window_size == 0)
        && (leb reliable_window_size (get_or ch.reliable_windows ((w + 15) % 16) 0)
            || not (bit_and ch.used_reliable_windows mask == 0)))

-- The data on its way would be more than the window, as far as the throttle lets it.
unfoldable pub exceeds : Peer → OutgoingCommand → Bool
exceeds p c =
    let window = u32 (p.throttle.packet_throttle * p.window_size) / 32 in
    ltb (max window p.mtu) (u32 (p.reliable_data_in_transit + c.fragment_length))

-- Whether `windowWrap` and `windowExceeded` hold for a command.
unfoldable pub is_wrapped : Flow → OutgoingCommand → Bool
unfolding wraps
is_wrapped w c = elim (get_elem? w.peer.channels c.command.channel_id) [
  | none ↦ false
  | some ch ↦ w.window_wrap || wraps ch c
]

unfoldable pub is_exceeded : Flow → OutgoingCommand → Bool
unfolding exceeds
is_exceeded w c = elim c.packet [ none ↦ false | some a ↦ w.window_exceeded || exceeds w.peer c ]

-- The channel's windows with one command more.
unfoldable pub enter_window : ℕ → Channel → Channel
enter_window w ch = record ch {
  used_reliable_windows = bit_or ch.used_reliable_windows (2 ^ w);
  reliable_windows = set ch.reliable_windows w (u16 (get_or ch.reliable_windows w 0 + 1));
}

-- The channels after a command is sent, for the first time or again.
unfoldable pub enter_channel : OutgoingCommand → List Channel → List Channel
unfolding enter_window
enter_channel c chs = elim (get_elem? chs c.command.channel_id) [
  | none ↦ chs
  | some ch ↦
      if ltb c.send_attempts 1
      then set chs c.command.channel_id
          (enter_window (c.reliable_sequence_number / reliable_window_size) ch)
      else chs
]

-- The command as it is kept until it is acknowledged.
unfoldable pub on_its_way : ℕ → Peer → OutgoingCommand → OutgoingCommand
on_its_way now p c =
    let timeout =
      u32 (p.round_trip.round_trip_time + u32 (4 * p.round_trip.round_trip_time_variance)) in
    record c {
      send_attempts = u16 (c.send_attempts + 1);
      sent_time = now;
      round_trip_timeout = if c.round_trip_timeout == 0 then timeout else c.round_trip_timeout;
      round_trip_timeout_limit =
          if c.round_trip_timeout == 0
          then u32 (p.timing.timeout_limit * timeout)
          else c.round_trip_timeout_limit;
    }

-- `nextTimeout` is set by the first command on its way.
unfoldable pub first_timeout : ℕ → OutgoingCommand → List OutgoingCommand → ℕ → ℕ
first_timeout now c [] old = u32 (now + c.round_trip_timeout)
first_timeout now c (d ∷ ds) old = old

-- The peer and the datagram with the command.
unfoldable pub transmit : ℕ → OutgoingCommand → Flow → Flow
unfolding enter_channel on_its_way first_timeout put data_of
transmit now c w =
    let p = w.peer in
    let c' = on_its_way now p c in
    record w {
      can_ping = false;
      draft = record (put c.command (command_size c.command.header.command) (data_of c) w.draft) {
        has_sent_time = true;
      };
      peer = record p {
        channels = enter_channel c p.channels;
        timing = record p.timing {
          next_timeout = first_timeout now c' p.queues.sent_reliable_commands p.timing.next_timeout;
        };
        queues = record p.queues {
          sent_reliable_commands = p.queues.sent_reliable_commands ++ c' ∷ [];
        };
        reliable_data_in_transit = elim c.packet [
          | none ↦ p.reliable_data_in_transit
          | some a ↦ u32 (p.reliable_data_in_transit + c.fragment_length)
        ];
        loss = record p.loss { packets_sent = u32 (p.loss.packets_sent + 1) };
      };
    }

-- The loop, with the commands that stay in the queue.
unfoldable pub flow : ℕ → List OutgoingCommand → Flow → Flow × List OutgoingCommand
unfolding is_wrapped is_exceeded transmit takes_reliable data_of
flow now [] w = (w, [])
flow now (c ∷ cs) w =
    let wrapped = flow now cs (record w { window_wrap = true }) in
    let exceeded = flow now cs (record w { window_exceeded = true }) in
    let sent = flow now cs (transmit now c w) in
    if is_wrapped w c
    then (wrapped.0, c ∷ wrapped.1)
    else if is_exceeded w c
    then (exceeded.0, c ∷ exceeded.1)
    else if takes_reliable w.peer.mtu (command_size c.command.header.command) (data_of c) w.draft
    then sent
    else (record w { can_ping = false; draft = record w.draft { continue_sending = true } }, c ∷ cs)

-- enet_protocol_send_reliable_outgoing_commands: whether the peer may be pinged.
unfoldable pub send_reliable_outgoing_commands : Draft → Site → Bool × Draft × Site
unfolding flow
send_reliable_outgoing_commands d s =
    let (w, left) = flow s.host.service_time s.peer.queues.outgoing_reliable_commands (record {
      draft = d;
      peer = s.peer;
      window_exceeded = false;
      window_wrap = false;
      can_ping = true;
    }) in
    (
      w.can_ping,
      w.draft,
      record s {
        peer = record w.peer {
          queues = record w.peer.queues { outgoing_reliable_commands = left };
        };
      },
    )
