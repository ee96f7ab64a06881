-- ===== src/Protocol/Receive/Genuine.antt =====
-- toxtun/protocol.c, enet_protocol_handle_incoming_commands: what a datagram must be to have any effect.
use toxsh.Prelude.{
  ℕ, ◌≤◌, ◌≡◌, ◌≢◌, ◌⊎◌, inl, inr, refl, ap, Bool, true, false, ◌==◌, List, none, some, get_elem?,
  Bool-cases, Option-cases, arith,
}
use toxsh.Wire.{maximum_peer_id}
use toxsh.Wire.Layout.{short, get}
use toxsh.State.{Address, Peer, PeerState, disconnected, zombie, Site}
use toxsh.World.{World}
use toxsh.Protocol.Receive.{Allocation}
use toxsh.Protocol.Receive.Header.{
  Filters, header_of, is_from, is_unreachable, broadcast_address, handle_incoming_commands,
  received, ignore,
}

-- A datagram under a session id comes from the other side of a peer that is in use: from its address, or
-- from any if that is the address of a broadcast, and under its session, once the peer knows the other
-- side.
pub record Sends (from : Address) (session_id : ℕ) (p : Peer) : Type 0 where
  pub in_use : (p.state ≢ disconnected) × (p.state ≢ zombie)
  pub address :
      ((from.host ≡ p.session.address.host) × (from.port ≡ p.session.address.port))
      ⊎ (p.session.address.host ≡ broadcast_address)
  pub session :
      (maximum_peer_id ≤ p.session.outgoing_peer_id) ⊎ (session_id ≡ p.session.incoming_session_id)

is_unreachable-facts :
    (s : PeerState) → is_unreachable s ≡ false → (s ≢ disconnected) × (s ≢ zombie)
unfolding is_unreachable
is_unreachable-facts s h =
    ((λ e. absurd (cc (h, ap is_unreachable e))), (λ e. absurd (cc (h, ap is_unreachable e))))

is_from-Sends :
    (from : Address) (session_id : ℕ) (p : Peer)
    → is_from from session_id p ≡ true
    → Sends from session_id p
unfolding is_from
is_from-Sends from session_id p h = record {
  in_use = is_unreachable-facts p.state (ground arith);
  address = ground arith;
  session = ground arith;
}

-- A datagram that names no peer, or a peer of the host for which it comes.
unfoldable pub IsGenuine : World → List ℕ → Type 0
IsGenuine w bytes =
    (n : ℕ) × (behind : List ℕ) × (get short bytes ≡ some (n, behind))
    × (((header_of n).peer_id ≡ maximum_peer_id)
        ⊎ ((p : Peer) × (get_elem? w.peers (header_of n).peer_id ≡ some p)
            × Sends w.host.received_address (header_of n).session_id p))

-- Whatever the bytes of a datagram are: nothing of the host, its peers and its packets changes and nothing
-- is reported, or it is long enough for its first field, and names no peer, or a peer of the host that is
-- in use, of whose address and session it is. The address does not count where it is that of a broadcast,
-- nor the session before the peer knows the other side.
pub handle_incoming_commands-IsGenuine :
    (f : Filters) (wanted : Bool) (flush : Site → Site) (mallocs : ℕ → Allocation) (w : World)
    (bytes : List ℕ)
    → (handle_incoming_commands f wanted flush mallocs w bytes
        ≡ received (record { current = none; reported = none; world = w }))
      ⊎ IsGenuine w bytes
unfolding handle_incoming_commands ignore IsGenuine
handle_incoming_commands-IsGenuine f wanted flush mallocs w bytes =
    elim (Option-cases (get short bytes)) [
      | inl short_one ↦ inl (rw (handle_incoming_commands, short_one) refl)
      | inr ((n, behind), read) ↦
          let h = header_of n in
          elim (Bool-cases (h.peer_id == maximum_peer_id)) [
            | inl strange ↦ inr (n, behind, read, inl (ground arith))
            | inr known ↦ elim (Option-cases (get_elem? w.peers h.peer_id)) [
              | inl missing ↦ inl (rw (handle_incoming_commands, read, known, missing) refl)
              | inr (p, there) ↦
                  elim (Bool-cases (is_from w.host.received_address h.session_id p)) [
                    | inl right ↦
                        inr (n, behind, read, inr (p, there, is_from-Sends _ h.session_id p right))
                    | inr wrong ↦
                        inl (rw (handle_incoming_commands, read, known, there, wrong) refl)
                  ]
            ]
          ]
    ]
