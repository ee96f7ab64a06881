-- ===== src/Peer/Connection.antt =====
-- The counters of connected peers that a host keeps: enet_peer_on_connect and enet_peer_on_disconnect
-- of toxtun/peer.c, and the changes of state of toxtun/protocol.c.
use toxsh.Prelude.{ℕ, ◌+◌, ◌%◌, Bool, true, false, ◌==◌, [], ◌∷◌, ◌++◌, if◌then◌else◌}
use toxsh.State.{Site, PeerState, connected, disconnect_later}

-- `state == ENET_PEER_STATE_CONNECTED || state == ENET_PEER_STATE_DISCONNECT_LATER`
unfoldable pub is_connected : PeerState → Bool
is_connected connected = true
is_connected disconnect_later = true
is_connected _ = false

-- `-- n` on a size_t.
unfoldable pub one_less : ℕ → ℕ
one_less n = (n + 18446744073709551615) % 18446744073709551616

-- enet_peer_on_connect
unfoldable pub on_connect : Site → Site
unfolding is_connected
on_connect s = if is_connected s.peer.state then s else record s {
  host = record s.host {
    bandwidth_limited_peers =
        if s.peer.bandwidth.incoming_bandwidth == 0
        then s.host.bandwidth_limited_peers
        else s.host.bandwidth_limited_peers + 1;
    connected_peers = s.host.connected_peers + 1;
  };
}

-- enet_peer_on_disconnect
unfoldable pub on_disconnect : Site → Site
unfolding is_connected one_less
on_disconnect s =
    if is_connected s.peer.state
    then record s {
      host = record s.host {
        bandwidth_limited_peers =
            if s.peer.bandwidth.incoming_bandwidth == 0
            then s.host.bandwidth_limited_peers
            else one_less s.host.bandwidth_limited_peers;
        connected_peers = one_less s.host.connected_peers;
      };
    }
    else s

-- enet_protocol_change_state
unfoldable pub change_state : PeerState → Site → Site
unfolding on_connect on_disconnect
change_state state s =
    let s' = if is_connected state then on_connect s else on_disconnect s in
    record s' { peer = record s'.peer { state = state } }

-- The peer at the end of the host's queue of peers with something to report, unless it is there.
unfoldable pub link_dispatch : Site → Site
link_dispatch s = if s.peer.needs_dispatch then s else record s {
  host = record s.host {
    dispatch_queue = s.host.dispatch_queue ++ s.peer.session.incoming_peer_id ∷ [];
  };
  peer = record s.peer { needs_dispatch = true };
}

-- enet_protocol_dispatch_state
unfoldable pub dispatch_state : PeerState → Site → Site
unfolding change_state link_dispatch
dispatch_state state s = link_dispatch (change_state state s)
