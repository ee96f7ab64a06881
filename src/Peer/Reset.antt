-- ===== src/Peer/Reset.antt =====
-- toxtun/peer.c: enet_peer_reset_queues, enet_peer_reset and the settings of a peer. A queue of
-- incoming commands owns its packets, which go with it.
use toxsh.Prelude.{ℕ, false, ◌==◌, List, [], ◌∷◌, if◌then◌else◌, replicate}
use toxsh.Wire.{maximum_peer_id, maximum_window_size}
use toxsh.State.{Site, Peer, Queues, disconnected}
use toxsh.Peer.Connection.{on_disconnect}
use toxsh.Peer.Release.{reset_outgoing_commands}

-- The removal of a peer from the dispatch queue, where it stands once.
unfoldable pub unlink : ℕ → List ℕ → List ℕ
unlink id [] = []
unlink id (n ∷ ns) = let rest = unlink id ns in if n == id then ns else n ∷ rest

abbrev pub no_queues : Queues
no_queues = record {
  acknowledgements = [];
  sent_reliable_commands = [];
  sent_unreliable_commands = [];
  outgoing_reliable_commands = [];
  outgoing_unreliable_commands = [];
  dispatched_commands = [];
}

-- enet_peer_reset_queues
unfoldable pub reset_queues : Site → Site
unfolding reset_outgoing_commands unlink
reset_queues s =
    let q = s.peer.queues in
    record s {
      host =
          if s.peer.needs_dispatch
          then record s.host {
            dispatch_queue = unlink s.peer.session.incoming_peer_id s.host.dispatch_queue;
          }
          else s.host;
      peer = record s.peer { queues = no_queues; channels = []; needs_dispatch = false };
      packets = reset_outgoing_commands q.outgoing_unreliable_commands (
          reset_outgoing_commands q.outgoing_reliable_commands (
            reset_outgoing_commands q.sent_unreliable_commands
              (reset_outgoing_commands q.sent_reliable_commands s.packets)));
    }

-- ENET_PEER_PING_INTERVAL, ENET_PEER_TIMEOUT_LIMIT, ENET_PEER_TIMEOUT_MINIMUM and
-- ENET_PEER_TIMEOUT_MAXIMUM
abbrev pub default_ping_interval : ℕ
default_ping_interval = 500

abbrev pub default_timeout_limit : ℕ
default_timeout_limit = 32

abbrev pub default_timeout_minimum : ℕ
default_timeout_minimum = 5000

abbrev pub default_timeout_maximum : ℕ
default_timeout_maximum = 30000

-- ENET_PEER_DEFAULT_ROUND_TRIP_TIME
abbrev pub default_round_trip_time : ℕ
default_round_trip_time = 500

-- What enet_peer_reset writes in the peer, which belongs to a host of MTU `mtu`.
unfoldable pub fresh_peer : ℕ → Peer → Peer
fresh_peer mtu p = record p {
  state = disconnected;
  session = record p.session { outgoing_peer_id = maximum_peer_id; connect_id = 0 };
  bandwidth = record {
    incoming_bandwidth = 0;
    outgoing_bandwidth = 0;
    incoming_bandwidth_throttle_epoch = 0;
    outgoing_bandwidth_throttle_epoch = 0;
    incoming_data_total = 0;
    outgoing_data_total = 0;
  };
  timing = record {
    last_send_time = 0;
    last_receive_time = 0;
    next_timeout = 0;
    earliest_timeout = 0;
    ping_interval = default_ping_interval;
    timeout_limit = default_timeout_limit;
    timeout_minimum = default_timeout_minimum;
    timeout_maximum = default_timeout_maximum;
  };
  loss = record {
    packet_loss_epoch = 0;
    packets_sent = 0;
    packets_lost = 0;
    packet_loss = 0;
    packet_loss_variance = 0;
  };
  throttle = record {
    packet_throttle = 32;
    packet_throttle_limit = 32;
    packet_throttle_counter = 0;
    packet_throttle_epoch = 0;
    packet_throttle_acceleration = 2;
    packet_throttle_deceleration = 2;
    packet_throttle_interval = 5000;
  };
  round_trip = record {
    last_round_trip_time = default_round_trip_time;
    lowest_round_trip_time = default_round_trip_time;
    last_round_trip_time_variance = 0;
    highest_round_trip_time_variance = 0;
    round_trip_time = default_round_trip_time;
    round_trip_time_variance = 0;
  };
  mtu = mtu;
  reliable_data_in_transit = 0;
  outgoing_reliable_sequence_number = 0;
  window_size = maximum_window_size;
  incoming_unsequenced_group = 0;
  outgoing_unsequenced_group = 0;
  event_data = 0;
  total_waiting_data = 0;
  unsequenced_window = replicate 1024 false;
}

-- enet_peer_reset
unfoldable pub reset : Site → Site
unfolding on_disconnect reset_queues fresh_peer
reset s =
    let s' = on_disconnect s in reset_queues (record s' { peer = fresh_peer s'.host.mtu s'.peer })

-- `n ? n : default`
abbrev pub or_default : ℕ → ℕ → ℕ
or_default n default = if n == 0 then default else n

-- enet_peer_ping_interval
unfoldable pub set_ping_interval : ℕ → Peer → Peer
set_ping_interval n p = record p {
  timing = record p.timing { ping_interval = or_default n default_ping_interval };
}

-- enet_peer_timeout
unfoldable pub set_timeout : ℕ → ℕ → ℕ → Peer → Peer
set_timeout limit minimum maximum p = record p {
  timing = record p.timing {
    timeout_limit = or_default limit default_timeout_limit;
    timeout_minimum = or_default minimum default_timeout_minimum;
    timeout_maximum = or_default maximum default_timeout_maximum;
  };
}
