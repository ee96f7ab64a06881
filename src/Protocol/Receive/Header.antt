-- ===== src/Protocol/Receive/Header.antt =====
-- toxtun/protocol.c, enet_protocol_handle_incoming_commands: the header of a datagram, and the datagram
-- as a whole. The checksum and the decompression of a host are callbacks, and so arguments here.
use toxsh.Prelude.{
  ℕ, ◌+◌, ◌-◌, ◌/◌, ◌%◌, Bool, true, false, not, ◌&&◌, ◌||◌, ◌==◌, ltb, List, ◌++◌, Option, none,
  some, if◌then◌else◌, u32, has_bit, length, take, drop, get_elem?,
}
use toxsh.Wire.{maximum_peer_id, maximum_mtu}
use toxsh.Wire.Layout.{short, native, put, get}
use toxsh.State.{Address, Peer, Site, PeerState, disconnected, zombie}
use toxsh.World.{World, site_of, put_site}
use toxsh.Protocol.Receive.{
  Allocation, Reading, Context, Ended, ended, crashed, unfinished, read_commands,
}

-- The first field of ENetProtocolHeader, taken apart.
pub record Header : Type 0 where
  pub peer_id : ℕ
  pub session_id : ℕ
  pub is_compressed : Bool
  pub has_sent_time : Bool

unfoldable pub header_of : ℕ → Header
header_of n = record {
  peer_id = n % 4096;
  session_id = n / 4096 % 4;
  is_compressed = has_bit n 14;
  has_sent_time = has_bit n 15;
}

-- The callbacks of a host, `none` for NULL: the checksum of a datagram, and what compressed bytes stand
-- for, of which it writes no more than a limit.
pub record Filters : Type 0 where
  pub checksum : Option (List ℕ → ℕ)
  pub decompress : Option (List ℕ → ℕ → List ℕ)

unfoldable pub has_checksum : Filters → Bool
has_checksum f = elim f.checksum [ none ↦ false | some _ ↦ true ]

unfoldable pub header_size : Filters → Header → ℕ
unfolding has_checksum
header_size f h = (if h.has_sent_time then 4 else 2) + (if has_checksum f then 4 else 0)

unfoldable pub is_unreachable : PeerState → Bool
is_unreachable disconnected = true
is_unreachable zombie = true
is_unreachable _ = false

-- ENET_HOST_BROADCAST
abbrev pub broadcast_address : ℕ
broadcast_address = 0xffffffff

-- Whether a datagram from the address `from` under a session id is one of the peer.
unfoldable pub is_from : Address → ℕ → Peer → Bool
unfolding is_unreachable
is_from from session_id p = not (
    is_unreachable p.state
    || ((not (from.host == p.session.address.host) || not (from.port == p.session.address.port))
        && not (p.session.address.host == broadcast_address))
    || (ltb p.session.outgoing_peer_id maximum_peer_id
        && not (session_id == p.session.incoming_session_id)))

-- What comes of a datagram before its commands: it is passed over, it is read on, or the source reads
-- bytes behind the datagram.
pub data Filtered : Type 0 where
  passed_over : Filtered
  readable : List ℕ → Filtered
  overread : Filtered

-- The compressed rest of a datagram behind its header.
unfoldable pub inflate : Filters → Header → List ℕ → Filtered
unfolding header_size
inflate f h bytes = elim f.decompress [
  | none ↦ passed_over
  | some decompress ↦
      let size = header_size f h in
      let out = decompress (drop size bytes) (maximum_mtu - size) in
      if ltb (length bytes) size
      then overread
      else if (length out == 0) || ltb (maximum_mtu - size) (length out)
      then passed_over
      else readable (take size bytes ++ out)
]

-- The test of the checksum, for which the field is overwritten by the number of the connection.
unfoldable pub verify_checksum : Filters → Header → ℕ → List ℕ → Filtered
unfolding header_size put get
verify_checksum f h connect_id bytes = elim f.checksum [
  | none ↦ readable bytes
  | some checksum ↦
      let place = header_size f h - 4 in
      let marked = take place bytes ++ (put native connect_id ++ drop (place + 4) bytes) in
      elim (get native (drop place bytes)) [
        | none ↦ overread
        | some (desired, behind) ↦
            if checksum marked == desired then readable marked else passed_over
      ]
]

unfoldable pub filter : Filters → Header → ℕ → List ℕ → Filtered
unfolding inflate verify_checksum
filter f h connect_id bytes =
    if h.is_compressed
    then (elim (inflate f h bytes) [
      | passed_over ↦ passed_over
      | readable bytes' ↦ verify_checksum f h connect_id bytes'
      | overread ↦ overread
    ])
    else verify_checksum f h connect_id bytes

-- What enet_protocol_handle_incoming_commands comes to.
pub data Received : Type 0 where
  received : Reading → Received
  out_of_bounds : Received
  endless : Received

unfoldable pub after_loop : Ended → Received
after_loop (ended r) = received r
after_loop crashed = out_of_bounds
after_loop unfinished = endless

-- Nothing is done.
unfoldable pub ignore : World → Received
ignore w = received (record { current = none; reported = none; world = w })

-- What goes for the commands behind a header.
unfoldable pub context_of : Bool → (Site → Site) → Header → List ℕ → Context
unfolding get
context_of wanted flush h bytes = record {
  wanted = wanted;
  sent_time = elim (get short (drop 2 bytes)) [
    | none ↦ none
    | some (n, behind) ↦ if h.has_sent_time then some n else none
  ];
  flush = flush;
}

-- The commands, from behind the header on.
unfoldable pub read_from :
    Filters
    → Bool
    → (Site → Site)
    → (ℕ → Allocation)
    → Header
    → Option ℕ
    → World
    → List ℕ
    → Received
unfolding header_size context_of after_loop read_commands
read_from f wanted flush mallocs h current w bytes =
    let rest = drop (header_size f h) bytes in
    after_loop (
      read_commands (context_of wanted flush h bytes) mallocs (length rest) 0 rest
        (record { current = current; reported = none; world = w }))

-- The peer's new address, and the bytes that have come.
unfoldable pub note_datagram : Address → ℕ → Peer → Peer
note_datagram from n p = record p {
  session = record p.session {
    address = record p.session.address { host = from.host; port = from.port };
  };
  bandwidth = record p.bandwidth {
    incoming_data_total = u32 (p.bandwidth.incoming_data_total + n);
  };
}

-- A datagram with no peer.
unfoldable pub receive_strange :
    Filters → Bool → (Site → Site) → (ℕ → Allocation) → Header → World → List ℕ → Received
unfolding filter read_from ignore
receive_strange f wanted flush mallocs h w bytes = elim (filter f h 0 bytes) [
  | passed_over ↦ ignore w
  | overread ↦ out_of_bounds
  | readable bytes' ↦ read_from f wanted flush mallocs h none w bytes'
]

-- A datagram of the peer `p`.
unfoldable pub receive_known :
    Filters → Bool → (Site → Site) → (ℕ → Allocation) → Header → Peer → World → List ℕ → Received
unfolding filter read_from ignore note_datagram
receive_known f wanted flush mallocs h p w bytes = elim (filter f h p.session.connect_id bytes) [
  | passed_over ↦ ignore w
  | overread ↦ out_of_bounds
  | readable bytes' ↦
      read_from f wanted flush mallocs h (some h.peer_id)
        (put_site h.peer_id (site_of w (note_datagram w.host.received_address (length bytes') p)) w)
        bytes'
]

-- enet_protocol_handle_incoming_commands on the bytes of a datagram.
unfoldable pub handle_incoming_commands :
    Filters → Bool → (Site → Site) → (ℕ → Allocation) → World → List ℕ → Received
unfolding get header_of is_from receive_strange receive_known ignore
handle_incoming_commands f wanted flush mallocs w bytes = elim (get short bytes) [
  | none ↦ ignore w
  | some (n, behind) ↦
      let h = header_of n in
      if h.peer_id == maximum_peer_id
      then receive_strange f wanted flush mallocs h w bytes
      else elim (get_elem? w.peers h.peer_id) [
        | none ↦ ignore w
        | some p ↦
            if is_from w.host.received_address h.session_id p
            then receive_known f wanted flush mallocs h p w bytes
            else ignore w
      ]
]
