-- ===== src/Host.antt =====
-- toxtun/host.c, and enet_host_create_notp of toxtun/bilayer.c: the life of a host, but the sockets and
-- the compressor.
pub mod Bandwidth
pub mod Agreement
use toxsh.Prelude.{
  ℕ, zero, suc, ◌+◌, ◌-◌, ◌*◌, ◌/◌, ◌%◌, Bool, true, false, not, ◌&&◌, ◌||◌, ◌==◌, ltb, leb, List,
  [], ◌∷◌, ◌++◌, Option, none, some, if◌then◌else◌, u32, replicate, get_elem?, set, length, bit_or,
}
use toxsh.Wire.{
  Handshake, connect, maximum_peer_id, minimum_channel_count, maximum_channel_count,
  maximum_window_size, minimum_window_size,
}
use toxsh.Wire.Command
use toxsh.Memory.{Packet, Store}
use toxsh.State.{Address, Host, Peer, Site, PeerState, disconnected, connecting}
use toxsh.World.{World, put_site, site_of}
use toxsh.Peer.Release.{write}
use toxsh.Peer.Reset.{no_queues, reset, fresh_peer}
use toxsh.Peer.Outgoing.{is_open, own_command, queue_outgoing_command}
use toxsh.Peer.Disconnect.{is_disconnected}
use toxsh.Peer.Send.{peer_send}
use toxsh.Protocol.Control.{clamp_window}
use toxsh.Protocol.Handshake.{fresh_channel}

-- The limit on channels that is kept for the one asked for.
unfoldable pub limit_channels : ℕ → ℕ
limit_channels n =
    if (n == 0) || ltb maximum_channel_count n
    then maximum_channel_count
    else if ltb n minimum_channel_count
    then minimum_channel_count
    else n

-- enet_host_channel_limit
unfoldable pub set_channel_limit : ℕ → Host → Host
unfolding limit_channels
set_channel_limit n host = record host { channel_limit = limit_channels n }

-- enet_host_bandwidth_limit
unfoldable pub set_bandwidth_limit : ℕ → ℕ → Host → Host
set_bandwidth_limit incoming outgoing host = record host {
  incoming_bandwidth = incoming;
  outgoing_bandwidth = outgoing;
  recalculate_bandwidth_limits = true;
}

-- ENET_HOST_ANY, port 0
abbrev pub any_address : Address
any_address = record { host = 0; port = 0; vaddr = 0 }

-- ENET_HOST_DEFAULT_MTU, ENET_HOST_DEFAULT_MAXIMUM_PACKET_SIZE and
-- ENET_HOST_DEFAULT_MAXIMUM_WAITING_DATA
abbrev pub default_mtu : ℕ
default_mtu = 1343

abbrev pub default_maximum_packet_size : ℕ
default_maximum_packet_size = 33554432

abbrev pub default_maximum_waiting_data : ℕ
default_maximum_waiting_data = 33554432

-- The seed, from the host's address in memory and a number of the system's: the sum with its halves
-- swapped.
unfoldable pub seed_of : ℕ → ℕ → ℕ
seed_of address random = let n = u32 (u32 address + random) in n % 65536 * 65536 + n / 65536

-- A host before its peers.
unfoldable pub new_host : ℕ → ℕ → ℕ → ℕ → Host
unfolding limit_channels
new_host seed channel_limit incoming outgoing = record {
  incoming_bandwidth = incoming;
  outgoing_bandwidth = outgoing;
  bandwidth_throttle_epoch = 0;
  mtu = default_mtu;
  random_seed = seed;
  recalculate_bandwidth_limits = false;
  channel_limit = limit_channels channel_limit;
  service_time = 0;
  dispatch_queue = [];
  received_address = any_address;
  connected_peers = 0;
  bandwidth_limited_peers = 0;
  duplicate_peers = maximum_peer_id;
  maximum_packet_size = default_maximum_packet_size;
  maximum_waiting_data = default_maximum_waiting_data;
}

-- A peer of zeros with the index `i`, and neither session id.
unfoldable pub blank_peer : ℕ → Peer
blank_peer i = record {
  state = disconnected;
  session = record {
    outgoing_peer_id = 0;
    incoming_peer_id = i;
    connect_id = 0;
    outgoing_session_id = 255;
    incoming_session_id = 255;
    address = any_address;
  };
  throttle = record {
    packet_throttle = 0;
    packet_throttle_limit = 0;
    packet_throttle_counter = 0;
    packet_throttle_epoch = 0;
    packet_throttle_acceleration = 0;
    packet_throttle_deceleration = 0;
    packet_throttle_interval = 0;
  };
  round_trip = record {
    last_round_trip_time = 0;
    lowest_round_trip_time = 0;
    last_round_trip_time_variance = 0;
    highest_round_trip_time_variance = 0;
    round_trip_time = 0;
    round_trip_time_variance = 0;
  };
  loss = record {
    packet_loss_epoch = 0;
    packets_sent = 0;
    packets_lost = 0;
    packet_loss = 0;
    packet_loss_variance = 0;
  };
  timing = record {
    last_send_time = 0;
    last_receive_time = 0;
    next_timeout = 0;
    earliest_timeout = 0;
    ping_interval = 0;
    timeout_limit = 0;
    timeout_minimum = 0;
    timeout_maximum = 0;
  };
  bandwidth = record {
    incoming_bandwidth = 0;
    outgoing_bandwidth = 0;
    incoming_bandwidth_throttle_epoch = 0;
    outgoing_bandwidth_throttle_epoch = 0;
    incoming_data_total = 0;
    outgoing_data_total = 0;
  };
  queues = no_queues;
  channels = [];
  mtu = 0;
  window_size = 0;
  reliable_data_in_transit = 0;
  outgoing_reliable_sequence_number = 0;
  needs_dispatch = false;
  incoming_unsequenced_group = 0;
  outgoing_unsequenced_group = 0;
  unsequenced_window = replicate 1024 false;
  event_data = 0;
  total_waiting_data = 0;
}

-- The loop that resets the new peers, from index `i` on.
unfoldable pub new_peers : ℕ → ℕ → Host → Store → Host × List Peer × Store
unfolding reset blank_peer
new_peers i zero host store = (host, [], store)
new_peers i (suc n) host store =
    let s = reset (record { host = host; peer = blank_peer i; packets = store }) in
    let (host', peers, store') = new_peers (suc i) n s.host s.packets in
    (host', s.peer ∷ peers, store')

-- enet_host_create_notp, and enet_host_create where its socket is there and bound: `mallocs` are the
-- results of the two mallocs. `none` is NULL.
unfoldable pub host_create : Bool → Bool → ℕ → ℕ → ℕ → ℕ → ℕ → Store → Option World
unfolding new_host new_peers
host_create host_alloc peers_alloc seed peer_count channel_limit incoming outgoing store =
    let (host, peers, store') =
      new_peers 0 peer_count (new_host seed channel_limit incoming outgoing) store in
    if ltb maximum_peer_id peer_count
    then none
    else if host_alloc && peers_alloc
    then some (record { host = host; peers = peers; packets = store' })
    else none

-- The resets of all peers, one after the other.
unfoldable pub reset_all : Host → List Peer → Store → Host × List Peer × Store
unfolding reset
reset_all host [] store = (host, [], store)
reset_all host (p ∷ ps) store =
    let s = reset (record { host = host; peer = p; packets = store }) in
    let (host', ps', store') = reset_all s.host ps s.packets in (host', s.peer ∷ ps', store')

-- enet_host_destroy: what of the packets is left in memory.
unfoldable pub host_destroy : World → Store
unfolding reset_all
host_destroy w = let (host, peers, store) = reset_all w.host w.peers w.packets in store

-- The first peer that is not in use, from index `i` on.
unfoldable pub find_free : ℕ → List Peer → Option (ℕ × Peer)
unfolding is_disconnected
find_free i [] = none
find_free i (p ∷ ps) = if is_disconnected p.state then some (i, p) else find_free (suc i) ps

-- The number of channels of a connection that is asked for.
unfoldable pub clamp_channels : ℕ → ℕ
clamp_channels n =
    if ltb n minimum_channel_count
    then minimum_channel_count
    else if ltb maximum_channel_count n
    then maximum_channel_count
    else n

-- The peer that begins a connection to `address` under the number `connect_id`.
unfoldable pub begin_connection : Host → Address → ℕ → ℕ → Peer → Peer
unfolding clamp_window
begin_connection host address channel_count connect_id p = record p {
  channels = replicate channel_count fresh_channel;
  state = connecting;
  session = record p.session { address = address; connect_id = connect_id };
  window_size =
      if host.outgoing_bandwidth == 0
      then clamp_window maximum_window_size
      else clamp_window (u32 (host.outgoing_bandwidth / 65536 * minimum_window_size));
}

-- The terms that the peer `p` asks for.
unfoldable pub request : Host → ℕ → Peer → Handshake
request host channel_count p = record {
  outgoing_peer_id = p.session.incoming_peer_id;
  incoming_session_id = p.session.incoming_session_id;
  outgoing_session_id = p.session.outgoing_session_id;
  mtu = p.mtu;
  window_size = p.window_size;
  channel_count = channel_count;
  incoming_bandwidth = host.incoming_bandwidth;
  outgoing_bandwidth = host.outgoing_bandwidth;
  packet_throttle_interval = p.throttle.packet_throttle_interval;
  packet_throttle_acceleration = p.throttle.packet_throttle_acceleration;
  packet_throttle_deceleration = p.throttle.packet_throttle_deceleration;
  connect_id = p.session.connect_id;
}

-- The outcome of enet_host_connect: NULL, the peer at an index, or an access out of bounds.
pub data Connecting : Type 0 where
  no_peer : Connecting
  begun : ℕ → World → Connecting
  broken : Connecting

-- From the peer that was found on.
unfoldable pub connect_peer : Bool → Bool → Address → ℕ → ℕ → ℕ → Peer → World → Connecting
unfolding begin_connection request queue_outgoing_command
connect_peer channels command address channel_count data_ i p w =
    let id = u32 (w.host.random_seed + 1) in
    let p' = begin_connection w.host address channel_count id p in
    let w' = record w { host = record w.host { random_seed = id } } in
    if channels
    then elim (queue_outgoing_command command
        (own_command (bit_or Command.connect Command.flag_acknowledge)
          (connect (request w.host channel_count p') data_))
        none 0 0 (site_of w' p')) [ none ↦ broken | some (sent, s) ↦ begun i (put_site i s w') ]
    else no_peer

-- enet_host_connect; `channels` and `command` are the results of its mallocs.
unfoldable pub host_connect : Bool → Bool → Address → ℕ → ℕ → World → Connecting
unfolding find_free clamp_channels connect_peer
host_connect channels command address channel_count data_ w = elim (find_free 0 w.peers) [
  | none ↦ no_peer
  | some (i, p) ↦ connect_peer channels command address (clamp_channels channel_count) data_ i p w
]

-- The loop of enet_host_broadcast over the peers `left` from index `i` on: `none` where memory is left.
unfoldable pub broadcast_from : Bool → (ℕ → ℕ → Bool) → ℕ → ℕ → ℕ → List Peer → World → Option World
unfolding is_open peer_send
broadcast_from checksum mallocs channel_id address i [] w = some w
broadcast_from checksum mallocs channel_id address i (p ∷ left) w =
    if is_open p.state
    then elim (peer_send checksum (mallocs i) channel_id address (site_of w p)) [
      | none ↦ none
      | some (sent, s) ↦
          broadcast_from checksum mallocs channel_id address (suc i) left (put_site i s w)
    ]
    else broadcast_from checksum mallocs channel_id address (suc i) left w

-- The packet is destroyed if no queue holds it.
unfoldable pub drop_unused : ℕ → World → Option World
unfolding write
drop_unused address w = elim (w.packets address) [
  | none ↦ none
  | some packet ↦
      if packet.reference_count == 0
      then some (record w { packets = write address none w.packets })
      else some w
]

-- enet_host_broadcast on the packet at `address`; `mallocs` gives the results of malloc for each peer.
unfoldable pub host_broadcast : Bool → (ℕ → ℕ → Bool) → ℕ → ℕ → World → Option World
unfolding broadcast_from drop_unused
host_broadcast checksum mallocs channel_id address w =
    elim (broadcast_from checksum mallocs channel_id address 0 w.peers w) [
      | none ↦ none
      | some w' ↦ drop_unused address w'
    ]
