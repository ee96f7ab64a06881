-- ===== src/Protocol/Handshake.antt =====
-- toxtun/protocol.c: enet_protocol_handle_connect and enet_protocol_handle_verify_connect.
use toxsh.Prelude.{
  ℕ, suc, ◌+◌, ◌*◌, ◌/◌, ◌%◌, ◌≤◌, ◌<◌, ◌≡◌, Bool, true, false, not, ◌&&◌, ◌||◌, ◌==◌, ltb, leb,
  List, [], ◌∷◌, Option, none, some, if◌then◌else◌, u32, get_elem?, replicate, take, bit_or, arith,
  length, ◌≢◌,
}
use toxsh.Wire.{
  Handshake, verify_connect, minimum_mtu, maximum_mtu, maximum_window_size, minimum_window_size,
  minimum_channel_count, maximum_channel_count,
}
use toxsh.Wire.Command
use toxsh.Memory.{Store}
use toxsh.State.{
  Address, Channel, Host, Peer, Site, PeerState, disconnected, connecting, acknowledging_connect,
  zombie,
}
use toxsh.Peer.Outgoing.{own_command, queue_outgoing_command}
use toxsh.Peer.Connection.{dispatch_state}
use toxsh.Protocol.Control.{nothing, Outcome, notify_connect, clamp_window, window_for}
use toxsh.Protocol.Acknowledge.{remove_sent_reliable_command}

-- What the search for a free peer sees in one peer.
pub data Seen : Type 0 where
  free : Seen
  unrelated : Seen
  same_host : Seen
  same_connection : Seen

-- An address is that of the datagram, and the connection is the one that it asks for.
unfoldable pub compare_peer : Address → ℕ → Peer → Seen
compare_peer from connect_id p =
    if p.session.address.host == from.host
    then (if (p.session.address.port == from.port) && (p.session.connect_id == connect_id)
        then same_connection
        else same_host)
    else unrelated

-- A peer by its state.
unfoldable pub see_peer : Address → ℕ → Peer → Seen
unfolding compare_peer
see_peer from connect_id p = elim p.state [
  | disconnected ↦ free
  | connecting ↦ unrelated
  | _ ↦ compare_peer from connect_id p
]

-- The first free peer from index `i` on, and how many share the host: `none` where the connection is
-- there already.
unfoldable pub search_peers : Address → ℕ → ℕ → List Peer → Option (Option ℕ × ℕ)
unfolding see_peer
search_peers from connect_id i [] = some (none, 0)
search_peers from connect_id i (p ∷ ps) = elim (search_peers from connect_id (suc i) ps) [
  | none ↦ none
  | some (later, duplicates) ↦ elim (see_peer from connect_id p) [
    | free ↦ some (some i, duplicates)
    | unrelated ↦ some (later, duplicates)
    | same_host ↦ some (later, duplicates + 1)
    | same_connection ↦ none
  ]
]

-- The session id that follows `given`, or `other` if that is 0xFF, and is not `other`: modulo 4.
unfoldable pub next_session : ℕ → ℕ → ℕ
next_session given other =
    let next = ((if given == 255 then other else given) + 1) % 4 in
    if next == other then (next + 1) % 4 else next

abbrev pub fresh_channel : Channel
fresh_channel = record {
  outgoing_reliable_sequence_number = 0;
  outgoing_unreliable_sequence_number = 0;
  used_reliable_windows = 0;
  reliable_windows = replicate 16 0;
  incoming_reliable_sequence_number = 0;
  incoming_unreliable_sequence_number = 0;
  incoming_reliable_commands = [];
  incoming_unreliable_commands = [];
}

-- An MTU in bounds.
unfoldable pub clamp_mtu : ℕ → ℕ
clamp_mtu n =
    if ltb n minimum_mtu then minimum_mtu else if ltb maximum_mtu n then maximum_mtu else n

-- The channels of a connection: as many as asked for, up to the host's limit.
unfoldable pub channels_for : Host → Handshake → ℕ
channels_for host h =
    if ltb host.channel_limit h.channel_count then host.channel_limit else h.channel_count

-- The peer once it has taken the handshake.
unfoldable pub accept : Host → Handshake → ℕ → Peer → Peer
unfolding next_session clamp_mtu window_for channels_for
accept host h data_ p = record p {
  channels = replicate (channels_for host h) fresh_channel;
  state = acknowledging_connect;
  session = record p.session {
    connect_id = h.connect_id;
    address = host.received_address;
    outgoing_peer_id = h.outgoing_peer_id;
    outgoing_session_id = next_session h.incoming_session_id p.session.outgoing_session_id;
    incoming_session_id = next_session h.outgoing_session_id p.session.incoming_session_id;
  };
  bandwidth = record p.bandwidth {
    incoming_bandwidth = h.incoming_bandwidth;
    outgoing_bandwidth = h.outgoing_bandwidth;
  };
  throttle = record p.throttle {
    packet_throttle_interval = h.packet_throttle_interval;
    packet_throttle_acceleration = h.packet_throttle_acceleration;
    packet_throttle_deceleration = h.packet_throttle_deceleration;
  };
  event_data = data_;
  mtu = clamp_mtu h.mtu;
  window_size = window_for host.outgoing_bandwidth h.incoming_bandwidth;
}

-- The window that the host offers, at most the one asked for.
unfoldable pub offered_window : Host → Handshake → ℕ
unfolding clamp_window
offered_window host h =
    let own =
      if host.incoming_bandwidth == 0
      then maximum_window_size
      else u32 (host.incoming_bandwidth / 65536 * minimum_window_size) in
    clamp_window (if ltb h.window_size own then h.window_size else own)

-- The answer of the peer `p`, which has taken the handshake.
unfoldable pub verification : Host → Handshake → Peer → Handshake
unfolding offered_window channels_for
verification host h p = record {
  outgoing_peer_id = p.session.incoming_peer_id;
  incoming_session_id = p.session.outgoing_session_id;
  outgoing_session_id = p.session.incoming_session_id;
  mtu = p.mtu;
  window_size = offered_window host h;
  channel_count = channels_for host h;
  incoming_bandwidth = host.incoming_bandwidth;
  outgoing_bandwidth = host.outgoing_bandwidth;
  packet_throttle_interval = p.throttle.packet_throttle_interval;
  packet_throttle_acceleration = p.throttle.packet_throttle_acceleration;
  packet_throttle_deceleration = p.throttle.packet_throttle_deceleration;
  connect_id = p.session.connect_id;
}

-- The test on the channel count of either handshake.
unfoldable pub is_channel_count : ℕ → Bool
is_channel_count n = leb minimum_channel_count n && leb n maximum_channel_count

-- `refused` is NULL, `accepted` the peer at an index with its site; `broken` leaves its memory.
pub data Accepted : Type 0 where
  refused : Accepted
  accepted : ℕ → Site → Accepted
  broken : Accepted

-- The peer `p` at index `i` takes the handshake and answers.
unfoldable pub answer : Bool → Handshake → ℕ → Host → Store → ℕ → Peer → Accepted
unfolding accept verification queue_outgoing_command
answer alloc h data_ host store i p =
    let p' = accept host h data_ p in
    elim (queue_outgoing_command alloc
      (own_command (bit_or Command.verify_connect Command.flag_acknowledge)
        (verify_connect (verification host h p')))
      none 0 0 (record { host = host; peer = p'; packets = store })) [
        | none ↦ broken
        | some (sent, s) ↦ accepted i s
      ]

-- enet_protocol_handle_connect on the peers of the host; `channels` and `command` are the results of
-- its mallocs.
unfoldable pub handle_connect : Bool → Bool → Handshake → ℕ → Host → List Peer → Store → Accepted
unfolding is_channel_count search_peers answer
handle_connect channels command h data_ host peers store =
    if not (is_channel_count h.channel_count)
    then refused
    else elim (search_peers host.received_address h.connect_id 0 peers) [
      | none ↦ refused
      | some (none, duplicates) ↦ refused
      | some (some i, duplicates) ↦ elim (get_elem? peers i) [
        | none ↦ broken
        | some p ↦
            if leb host.duplicate_peers duplicates || not channels
            then refused
            else answer command h data_ host store i p
      ]
    ]

-- The test on what the other side sends back.
unfoldable pub is_verified : Handshake → Peer → Bool
unfolding is_channel_count
is_verified h p =
    is_channel_count h.channel_count
    && ((h.packet_throttle_interval == p.throttle.packet_throttle_interval)
        && ((h.packet_throttle_acceleration == p.throttle.packet_throttle_acceleration)
            && ((h.packet_throttle_deceleration == p.throttle.packet_throttle_deceleration)
                && (h.connect_id == p.session.connect_id))))

-- The peer takes the terms of the other side.
unfoldable pub take_terms : Handshake → Peer → Peer
unfolding clamp_mtu clamp_window
take_terms h p = record p {
  channels =
      if ltb h.channel_count (length p.channels)
      then take h.channel_count p.channels
      else p.channels;
  session = record p.session {
    outgoing_peer_id = h.outgoing_peer_id;
    incoming_session_id = h.incoming_session_id;
    outgoing_session_id = h.outgoing_session_id;
  };
  mtu = if ltb (clamp_mtu h.mtu) p.mtu then clamp_mtu h.mtu else p.mtu;
  window_size =
      if ltb (clamp_window h.window_size) p.window_size
      then clamp_window h.window_size
      else p.window_size;
  bandwidth = record p.bandwidth {
    incoming_bandwidth = h.incoming_bandwidth;
    outgoing_bandwidth = h.outgoing_bandwidth;
  };
}

unfoldable pub is_connecting : PeerState → Bool
is_connecting connecting = true
is_connecting _ = false

-- enet_protocol_handle_verify_connect
unfoldable pub handle_verify_connect : Bool → Handshake → Site → Outcome
unfolding is_connecting is_verified take_terms remove_sent_reliable_command notify_connect
    dispatch_state
handle_verify_connect wanted h s =
    let removed = (remove_sent_reliable_command 1 255 s).1 in
    let (event, s') = notify_connect wanted (record removed { peer = take_terms h removed.peer }) in
    if not (is_connecting s.peer.state)
    then record { is_done = true; event = nothing; site = s }
    else if is_verified h s.peer
    then record { is_done = true; event = event; site = s' }
    else record {
      is_done = false;
      event = nothing;
      site = dispatch_state zombie (record s { peer = record s.peer { event_data = 0 } });
    }

-- A session id that is handed out is below 4, and differs from the one of the peer's last connection.
pub next_session-fresh :
    (given other : ℕ) → (next_session given other < 4) × (next_session given other ≢ other)
unfolding next_session
next_session-fresh given other = ground arith

clamp_mtu-bounds : (n : ℕ) → (576 ≤ clamp_mtu n) × (clamp_mtu n ≤ 4096)
unfolding clamp_mtu
clamp_mtu-bounds n = ground arith

window_for-bounds : (a b : ℕ) → (4096 ≤ window_for a b) × (window_for a b ≤ 65536)
unfolding window_for clamp_window
window_for-bounds a b = ground arith

offered_window-bounds :
    (host : Host) (h : Handshake) → (4096 ≤ offered_window host h) × (offered_window host h ≤ 65536)
unfolding offered_window clamp_window
offered_window-bounds host h = ground arith

channels_for-bounds :
    (host : Host) (h : Handshake)
    → is_channel_count h.channel_count ≡ true
    → 1 ≤ host.channel_limit
    → (1 ≤ channels_for host h) × (channels_for host h ≤ 255)
unfolding channels_for is_channel_count
channels_for-bounds host h count limit = ground arith

-- Whatever the other side asks for, the MTU, both windows and the number of channels of an accepted
-- connection are in the bounds of the protocol, under a host's limit of at least one channel.
pub accept-bounds :
    (host : Host) (h : Handshake) (data_ : ℕ) (p : Peer)
    → is_channel_count h.channel_count ≡ true
    → 1 ≤ host.channel_limit
    → let p' = accept host h data_ p in
      (576 ≤ p'.mtu)
      × (p'.mtu ≤ 4096)
      × (4096 ≤ p'.window_size)
      × (p'.window_size ≤ 65536)
      × (4096 ≤ offered_window host h)
      × (offered_window host h ≤ 65536)
      × (1 ≤ channels_for host h)
      × (channels_for host h ≤ 255)
unfolding accept clamp_mtu window_for clamp_window offered_window channels_for is_channel_count
accept-bounds host h data_ p count limit =
    let m = clamp_mtu-bounds h.mtu in
    let w = window_for-bounds host.outgoing_bandwidth h.incoming_bandwidth in
    let o = offered_window-bounds host h in
    let c = channels_for-bounds host h count limit in (m.0, m.1, w.0, w.1, o.0, o.1, c.0, c.1)
