-- ===== src/Protocol/Receive/Guards.antt =====
-- toxtun/protocol.c, enet_protocol_handle_incoming_commands: the datagrams that it passes over.
use toxsh.Prelude.{
  ℕ, refl, ◌<◌, ◌≤◌, ◌≡◌, ◌≢◌, ◌⊎◌, Bool, true, false, ◌==◌, List, Option, none, some, get_elem?,
  length, if◌then◌else◌, arith, drop,
}
use toxsh.Wire.{maximum_peer_id}
use toxsh.Wire.Layout.{short, get}
use toxsh.State.{Address, Peer, Site}
use toxsh.World.{World}
use toxsh.Protocol.Receive.{Allocation, Ended, ended, crashed, unfinished}
use toxsh.Protocol.Receive.Header.{
  Filters, Header, header_size, header_of, is_from, handle_incoming_commands, ignore, Received,
  received, endless, out_of_bounds, read_from, after_loop, filter, passed_over, readable, overread,
  Filtered, receive_strange, receive_known,
}
use toxsh.Protocol.Receive.Ends.{read_commands-ends}

-- Another host sends in the name of the peer: its address is not the peer's, or the session is another
-- one than the peer's, once the peer knows the other side.
unfoldable pub Foreign : Address → ℕ → Peer → Type 0
Foreign from session_id p =
    ((from.host ≢ p.session.address.host) × (p.session.address.host ≢ 4294967295))
    ⊎ ((from.port ≢ p.session.address.port) × (p.session.address.host ≢ 4294967295))
    ⊎ ((p.session.outgoing_peer_id < 4095) × (session_id ≢ p.session.incoming_session_id))

is_from-Foreign :
    (from : Address) (session_id : ℕ) (p : Peer)
    → Foreign from session_id p
    → is_from from session_id p ≡ false
unfolding is_from Foreign
is_from-Foreign from session_id p h = ground arith

-- A datagram in the name of a peer, of another host or under another session, is passed over: nothing
-- of the host, its peers and its packets changes, and nothing is reported.
pub handle_incoming_commands-Foreign :
    (f : Filters) (wanted : Bool) (flush : Site → Site) (mallocs : ℕ → Allocation) (w : World)
    (bytes behind : List ℕ) (n : ℕ) (p : Peer)
    → get short bytes ≡ some (n, behind)
    → (header_of n).peer_id ≢ maximum_peer_id
    → get_elem? w.peers (header_of n).peer_id ≡ some p
    → Foreign w.host.received_address (header_of n).session_id p
    → handle_incoming_commands f wanted flush mallocs w bytes
      ≡ received (record { current = none; reported = none; world = w })
unfolding handle_incoming_commands ignore
handle_incoming_commands-Foreign f wanted flush mallocs w bytes behind n p e known there foreign =
    let other = is_from-Foreign w.host.received_address (header_of n).session_id p foreign in
    let named : ((header_of n).peer_id == 4095) ≡ false = ground arith in
    rw (handle_incoming_commands, e, named, there, other) refl

after_loop-ends : (e : Ended) → e ≢ unfinished → after_loop e ≢ endless
unfolding after_loop
after_loop-ends (ended r) h = λ e. ground arith
after_loop-ends crashed h = λ e. ground arith
after_loop-ends unfinished h = λ e. h refl

read_from-ends :
    (f : Filters) (wanted : Bool) (flush : Site → Site) (mallocs : ℕ → Allocation) (h : Header)
    (current : Option ℕ) (w : World) (bytes : List ℕ)
    → read_from f wanted flush mallocs h current w bytes ≢ endless
unfolding read_from
read_from-ends f wanted flush mallocs h current w bytes =
    let rest = drop (header_size f h) bytes in
    let enough : length rest ≤ length rest = omega arith in
    search (after_loop-ends, read_commands-ends)

choose-ends :
    (b : Bool) (x y : Received) → x ≢ endless → y ≢ endless → (if b then x else y) ≢ endless
choose-ends true x y h h' = h
choose-ends false x y h h' = h'

option-ends {ℓ} :
    {A : Type ℓ} (o : Option A) (z : Received) (f : A → Received)
    → z ≢ endless
    → ((a : A) → f a ≢ endless)
    → (elim o [ none ↦ z | some a ↦ f a ]) ≢ endless
option-ends none z f h h' = h
option-ends (some a) z f h h' = h' a

filtered-ends :
    (o : Filtered) (z z' : Received) (f : List ℕ → Received)
    → z ≢ endless
    → z' ≢ endless
    → ((bytes : List ℕ) → f bytes ≢ endless)
    → (elim o [ passed_over ↦ z | overread ↦ z' | readable bytes ↦ f bytes ]) ≢ endless
filtered-ends passed_over z z' f h h' h'' = h
filtered-ends overread z z' f h h' h'' = h'
filtered-ends (readable bytes) z z' f h h' h'' = h'' bytes

ignore-ends : (w : World) → ignore w ≢ endless
unfolding ignore
ignore-ends w = λ e. ground arith

overread-ends : out_of_bounds ≢ endless
overread-ends = λ e. ground arith

receive_strange-ends :
    (f : Filters) (wanted : Bool) (flush : Site → Site) (mallocs : ℕ → Allocation) (h : Header)
    (w : World) (bytes : List ℕ)
    → receive_strange f wanted flush mallocs h w bytes ≢ endless
unfolding receive_strange
receive_strange-ends f wanted flush mallocs h w bytes =
    filtered-ends (filter f h 0 bytes) _ _ _ (ignore-ends w) overread-ends
      (λ bytes'. read_from-ends f wanted flush mallocs h none w bytes')

receive_known-ends :
    (f : Filters) (wanted : Bool) (flush : Site → Site) (mallocs : ℕ → Allocation) (h : Header)
    (p : Peer) (w : World) (bytes : List ℕ)
    → receive_known f wanted flush mallocs h p w bytes ≢ endless
unfolding receive_known
receive_known-ends f wanted flush mallocs h p w bytes =
    filtered-ends (filter f h p.session.connect_id bytes) _ _ _ (ignore-ends w) overread-ends
      (λ bytes'. read_from-ends f wanted flush mallocs h (some h.peer_id) _ bytes')

-- The handling of a datagram comes to its end, whatever its bytes, the checksum, the decompression, the
-- state of the host and the results of malloc are.
pub handle_incoming_commands-ends :
    (f : Filters) (wanted : Bool) (flush : Site → Site) (mallocs : ℕ → Allocation) (w : World)
    (bytes : List ℕ)
    → handle_incoming_commands f wanted flush mallocs w bytes ≢ endless
unfolding handle_incoming_commands
handle_incoming_commands-ends f wanted flush mallocs w bytes =
    option-ends (get short bytes) _ _ (ignore-ends w) (λ x.
      choose-ends ((header_of x.0).peer_id == 4095) _ _
        (receive_strange-ends f wanted flush mallocs (header_of x.0) w bytes)
        (option-ends (get_elem? w.peers (header_of x.0).peer_id) _ _ (ignore-ends w) (λ p.
          choose-ends (is_from w.host.received_address (header_of x.0).session_id p) _ _
            (receive_known-ends f wanted flush mallocs (header_of x.0) p w bytes) (ignore-ends w))))
