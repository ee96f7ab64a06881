-- ===== src/Peer/Outgoing.antt =====
-- toxtun/peer.c: how a command gets its number and its queue, and the commands that a peer sends on its
-- own account.
use toxsh.Prelude.{
  ℕ, ◌+◌, ◌++◌, Bool, true, false, ◌==◌, [], ◌∷◌, Option, none, some, if◌then◌else◌, u16, u32, set,
  get_elem?, bit_or,
}
use toxsh.Wire.{
  Protocol, Body, send_unreliable, send_unsequenced, throttle_configure, ping, command_size,
}
use toxsh.Wire.Command
use toxsh.Memory.{OutgoingCommand, Store}
use toxsh.State.{Channel, Peer, Site, PeerState, connected}
use toxsh.Peer.Release.{retain}
use toxsh.Peer.Window.{is_acknowledgeable}

-- The number of a reliable command of a channel, and of an unreliable one.
unfoldable pub number_reliable : Channel → OutgoingCommand → Channel × OutgoingCommand
number_reliable ch c =
    let n = u16 (ch.outgoing_reliable_sequence_number + 1) in
    (
      record ch { outgoing_reliable_sequence_number = n; outgoing_unreliable_sequence_number = 0 },
      record c { reliable_sequence_number = n; unreliable_sequence_number = 0 },
    )

unfoldable pub number_unreliable : Channel → OutgoingCommand → Channel × OutgoingCommand
number_unreliable ch c =
    let n =
      if c.fragment_offset == 0
      then u16 (ch.outgoing_unreliable_sequence_number + 1)
      else ch.outgoing_unreliable_sequence_number in
    (
      record ch { outgoing_unreliable_sequence_number = n },
      record c {
        reliable_sequence_number = ch.outgoing_reliable_sequence_number;
        unreliable_sequence_number = n;
      },
    )

-- A numbering of the command by its channel, `none` without the channel.
unfoldable pub number_on :
    (Channel → OutgoingCommand → Channel × OutgoingCommand)
    → OutgoingCommand
    → Peer
    → Option (OutgoingCommand × Peer)
number_on number c p = elim (get_elem? p.channels c.command.channel_id) [
  | none ↦ none
  | some ch ↦
      let (ch', c') = number ch c in
      some (c', record p { channels = set p.channels c.command.channel_id ch' })
]

-- The four branches of enet_peer_setup_outgoing_command that number the command.
unfoldable pub number_command : OutgoingCommand → Peer → Option (OutgoingCommand × Peer)
unfolding number_on number_reliable number_unreliable
number_command c p =
    let n = u16 (p.outgoing_reliable_sequence_number + 1) in
    if c.command.channel_id == 255
    then some (
      record c { reliable_sequence_number = n; unreliable_sequence_number = 0 },
      record p { outgoing_reliable_sequence_number = n },
    )
    else if Command.is_acknowledged c.command.header.command
    then number_on number_reliable c p
    else if Command.is_unsequenced c.command.header.command
    then some (
      record c { reliable_sequence_number = 0; unreliable_sequence_number = 0 },
      record p { outgoing_unsequenced_group = u16 (p.outgoing_unsequenced_group + 1) },
    )
    else number_on number_unreliable c p

-- The fields of the command's body that depend on its numbers.
unfoldable pub stamp : ℕ → ℕ → Body → Body
stamp unreliable group (send_unreliable n len) = send_unreliable unreliable len
stamp unreliable group (send_unsequenced n len) = send_unsequenced group len
stamp unreliable group b = b

-- What is written once the numbers are there, and the queue that the command joins.
unfoldable pub append_outgoing : OutgoingCommand → Peer → Peer
unfolding stamp
append_outgoing c p =
    let c' = record c {
      send_attempts = 0;
      sent_time = 0;
      round_trip_timeout = 0;
      round_trip_timeout_limit = 0;
      command = record {
        header = record c.command.header { reliable_sequence_number = c.reliable_sequence_number };
        body = stamp c.unreliable_sequence_number p.outgoing_unsequenced_group c.command.body;
      };
    } in
    let q = p.queues in
    record p {
      queues =
          if Command.is_acknowledged c.command.header.command
          then record q { outgoing_reliable_commands = q.outgoing_reliable_commands ++ c' ∷ [] }
          else record q {
            outgoing_unreliable_commands = q.outgoing_unreliable_commands ++ c' ∷ [];
          };
    }

-- enet_peer_setup_outgoing_command, `none` where it reaches for a channel that is not there.
unfoldable pub setup_outgoing_command : OutgoingCommand → Peer → Option Peer
unfolding number_command append_outgoing command_size
setup_outgoing_command c p =
    let total = u32 (
      p.bandwidth.outgoing_data_total
      + command_size c.command.header.command
      + c.fragment_length) in
    elim (number_command c
      (record p { bandwidth = record p.bandwidth { outgoing_data_total = total } })) [
        | none ↦ none
        | some (c', p') ↦ some (append_outgoing c' p')
      ]

-- An ENetOutgoingCommand before its setup, with 0 for what malloc left in it.
unfoldable pub new_outgoing : Protocol → Option ℕ → ℕ → ℕ → OutgoingCommand
new_outgoing command packet offset length = record {
  reliable_sequence_number = 0;
  unreliable_sequence_number = 0;
  sent_time = 0;
  round_trip_timeout = 0;
  round_trip_timeout_limit = 0;
  fragment_offset = offset;
  fragment_length = length;
  send_attempts = 0;
  command = command;
  packet = packet;
}

-- `if (packet != NULL) ++ packet -> referenceCount`
unfoldable pub retain_given : Option ℕ → Store → Option Store
unfolding retain
retain_given none store = some store
retain_given (some a) store = retain 1 a store

-- enet_peer_queue_outgoing_command, with the result of its malloc: whether the result is not NULL, and
-- the site; `none` where it leaves its memory.
unfoldable pub queue_outgoing_command :
    Bool → Protocol → Option ℕ → ℕ → ℕ → Site → Option (Bool × Site)
unfolding retain_given new_outgoing setup_outgoing_command
queue_outgoing_command false command packet offset length s = some (false, s)
queue_outgoing_command true command packet offset length s = elim (retain_given packet s.packets) [
  | none ↦ none
  | some store ↦ elim (setup_outgoing_command (new_outgoing command packet offset length) s.peer) [
    | none ↦ none
    | some p ↦ some (true, record s { peer = p; packets = store })
  ]
]

-- A command of the peer's own, on channel 0xFF.
abbrev pub own_command : ℕ → Body → Protocol
own_command command body = record {
  header = record { command = command; channel_id = 255; reliable_sequence_number = 0 };
  body = body;
}

-- enet_peer_throttle_configure
unfoldable pub configure_throttle : Bool → ℕ → ℕ → ℕ → Site → Option (Bool × Site)
unfolding queue_outgoing_command
configure_throttle alloc interval acceleration deceleration s =
    queue_outgoing_command alloc
      (own_command (bit_or Command.throttle_configure Command.flag_acknowledge)
        (throttle_configure interval acceleration deceleration))
      none 0 0
      (record s {
        peer = record s.peer {
          throttle = record s.peer.throttle {
            packet_throttle_interval = interval;
            packet_throttle_acceleration = acceleration;
            packet_throttle_deceleration = deceleration;
          };
        };
      })

unfoldable pub is_open : PeerState → Bool
is_open connected = true
is_open _ = false

-- enet_peer_ping
unfoldable pub send_ping : Bool → Site → Option (Bool × Site)
unfolding queue_outgoing_command is_open
send_ping alloc s =
    let sent =
      queue_outgoing_command alloc (own_command (bit_or Command.ping Command.flag_acknowledge) ping)
        none 0 0 s in
    if is_open s.peer.state then sent else some (false, s)

-- The acknowledgement of a command at the end of its queue.
unfoldable pub acknowledged : Protocol → ℕ → Peer → Peer
acknowledged command sent_time p = record p {
  bandwidth = record p.bandwidth {
    outgoing_data_total = u32 (p.bandwidth.outgoing_data_total + 8);
  };
  queues = record p.queues {
    acknowledgements =
        p.queues.acknowledgements ++ record { sent_time = sent_time; command = command } ∷ [];
  };
}

-- enet_peer_queue_acknowledgement, with the result of its malloc.
unfoldable pub queue_acknowledgement : Bool → Protocol → ℕ → Peer → Bool × Peer
unfolding acknowledged is_acknowledgeable
queue_acknowledgement alloc command sent_time p =
    let done = if alloc then (true, acknowledged command sent_time p) else (false, p) in
    elim (get_elem? p.channels command.channel_id) [
      | none ↦ done
      | some ch ↦
          if is_acknowledgeable ch.incoming_reliable_sequence_number
            command.reliable_sequence_number
          then done
          else (false, p)
    ]
