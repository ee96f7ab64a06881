-- ===== src/Protocol/Events.antt =====
-- toxtun/protocol.c: enet_protocol_dispatch_incoming_commands and enet_host_check_events. They take the
-- peers that have something to report from the host's queue.
pub mod Linked
pub mod Sound
use toxsh.Prelude.{ℕ, Bool, true, false, List, [], ◌∷◌, ◌++◌, Option, none, some, get_elem?}
use toxsh.Memory.{Packet}
use toxsh.State.{Site, Peer, PeerState, connection_pending, connection_succeeded, connected, zombie}
use toxsh.World.{World, put_site, site_of}
use toxsh.Peer.Connection.{change_state}
use toxsh.Peer.Reset.{reset}
use toxsh.Peer.Send.{receive}

-- ENetEvent without its peer.
pub data Happening : Type 0 where
  connection : ℕ → Happening
  disconnection : ℕ → Happening
  arrival : ℕ → Packet → Happening

-- The peer at the end of the host's queue, which it is not in.
unfoldable pub relink : Site → Site
relink s = record s {
  host = record s.host {
    dispatch_queue = s.host.dispatch_queue ++ s.peer.session.incoming_peer_id ∷ [];
  };
  peer = record s.peer { needs_dispatch = true };
}

-- The branch of a connected peer.
unfoldable pub dispatch_packet : Site → Option (Happening × Site)
unfolding receive relink
dispatch_packet s =
    let (taken, p) = receive s.peer in
    let s' = record s { peer = p } in
    elim taken [
      | none ↦ none
      | some (channel, packet) ↦ some (
        arrival channel packet,
        elim p.queues.dispatched_commands [ [] ↦ s' | c ∷ cs ↦ relink s' ],
      )
    ]

-- The switch on the peer's state: `none` where the loop goes on with the next peer.
unfoldable pub dispatch_peer : PeerState → Site → Option (Happening × Site)
unfolding change_state reset dispatch_packet
dispatch_peer connection_pending s = some (connection s.peer.event_data, change_state connected s)
dispatch_peer connection_succeeded s = some (connection s.peer.event_data, change_state connected s)
dispatch_peer zombie s = some (
  disconnection s.peer.event_data,
  reset (record s { host = record s.host { recalculate_bandwidth_limits = true } }),
)
dispatch_peer connected s = dispatch_packet s
dispatch_peer _ s = none

-- The results 0 and 1 of enet_protocol_dispatch_incoming_commands; `lost` is a link to no peer.
pub data Dispatched : Type 0 where
  idle : World → Dispatched
  reported : ℕ → Happening → World → Dispatched
  lost : Dispatched

-- The host with `queue` left to dispatch, and its peer `i`, `p`, taken from it.
unfoldable pub pop : ℕ → Peer → List ℕ → World → World
pop i p queue w =
    put_site i
      (record {
        host = record w.host { dispatch_queue = queue };
        peer = record p { needs_dispatch = false };
        packets = w.packets;
      })
      w

-- The loop over the queue.
unfoldable pub dispatch_from : List ℕ → World → Dispatched
unfolding pop dispatch_peer
dispatch_from [] w = idle w
dispatch_from (i ∷ queue) w = elim (get_elem? w.peers i) [
  | none ↦ lost
  | some p ↦
      let w' = pop i p queue w in
      elim (dispatch_peer p.state (site_of w' (record p { needs_dispatch = false }))) [
        | none ↦ dispatch_from queue w'
        | some (happening, s) ↦ reported i happening (put_site i s w')
      ]
]

-- enet_host_check_events with an event to fill in.
unfoldable pub check_events : World → Dispatched
unfolding dispatch_from
check_events w = dispatch_from w.host.dispatch_queue w
