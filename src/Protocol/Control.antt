-- ===== src/Protocol/Control.antt =====
-- toxtun/protocol.c: reports of connections and their ends, and the handlers of the commands that carry
-- no packet, but acknowledgements and handshakes.
use toxsh.Prelude.{
  ℕ, ◌+◌, ◌*◌, ◌/◌, Bool, true, false, ◌||◌, ◌&&◌, ◌==◌, ltb, min, max, if◌then◌else◌, u32,
}
use toxsh.Wire.{Protocol, minimum_window_size, maximum_window_size}
use toxsh.Wire.Command
use toxsh.State.{
  Site, PeerState, disconnected, connecting, acknowledging_connect, connection_pending,
  connection_succeeded, connected, disconnect_later, disconnecting, acknowledging_disconnect,
  zombie,
}
use toxsh.Peer.Connection.{is_connected, one_less, change_state, dispatch_state}
use toxsh.Peer.Reset.{reset, reset_queues}

-- ENetEvent, without its peer: what is reported, if anything.
pub data Event : Type 0 where
  nothing : Event
  connect_event : ℕ → Event
  disconnect_event : ℕ → Event

-- The handlers' result: whether it is 0, what `event` holds, and the site.
pub record Outcome : Type 0 where
  pub is_done : Bool
  pub event : Event
  pub site : Site

abbrev pub recalculate : Site → Site
recalculate s = record s { host = record s.host { recalculate_bandwidth_limits = true } }

-- `state == ENET_PEER_STATE_CONNECTING ? ENET_PEER_STATE_CONNECTION_SUCCEEDED : ...`
unfoldable pub connection_state : PeerState → PeerState
connection_state connecting = connection_succeeded
connection_state _ = connection_pending

-- enet_protocol_notify_connect; `wanted` says whether `event` is not NULL.
unfoldable pub notify_connect : Bool → Site → Event × Site
unfolding change_state dispatch_state connection_state
notify_connect true s =
    let s' = change_state connected (recalculate s) in (connect_event s'.peer.event_data, s')
notify_connect false s = (nothing, dispatch_state (connection_state s.peer.state) (recalculate s))

-- `state >= ENET_PEER_STATE_CONNECTION_PENDING`
unfoldable pub is_past_handshake : PeerState → Bool
is_past_handshake disconnected = false
is_past_handshake connecting = false
is_past_handshake acknowledging_connect = false
is_past_handshake _ = true

-- `state != ENET_PEER_STATE_CONNECTING && state < ENET_PEER_STATE_CONNECTION_SUCCEEDED`
unfoldable pub is_unreported : PeerState → Bool
is_unreported disconnected = true
is_unreported acknowledging_connect = true
is_unreported connection_pending = true
is_unreported _ = false

-- enet_protocol_notify_disconnect
unfoldable pub notify_disconnect : Bool → Site → Event × Site
unfolding reset dispatch_state is_past_handshake is_unreported
notify_disconnect wanted s =
    let s' = if is_past_handshake s.peer.state then recalculate s else s in
    if is_unreported s.peer.state
    then (nothing, reset s')
    else if wanted
    then (disconnect_event 0, reset s')
    else (nothing, dispatch_state zombie (record s' { peer = record s'.peer { event_data = 0 } }))

-- enet_protocol_handle_ping: whether it returns 0.
unfoldable pub handle_ping : Site → Bool × Site
unfolding is_connected
handle_ping s = (is_connected s.peer.state, s)

-- A window size in bounds.
unfoldable pub clamp_window : ℕ → ℕ
clamp_window n =
    if ltb n minimum_window_size
    then minimum_window_size
    else if ltb maximum_window_size n
    then maximum_window_size
    else n

-- The window size that two bandwidths allow, where 0 is no limit.
unfoldable pub window_for : ℕ → ℕ → ℕ
unfolding clamp_window
window_for a b = clamp_window (
    if (a == 0) && (b == 0)
    then maximum_window_size
    else if (a == 0) || (b == 0)
    then u32 (max a b / 65536 * minimum_window_size)
    else u32 (min a b / 65536 * minimum_window_size))

-- enet_protocol_handle_bandwidth_limit
unfoldable pub handle_bandwidth_limit : ℕ → ℕ → Site → Bool × Site
unfolding is_connected one_less window_for
handle_bandwidth_limit incoming outgoing s =
    let others =
      if s.peer.bandwidth.incoming_bandwidth == 0
      then s.host.bandwidth_limited_peers
      else one_less s.host.bandwidth_limited_peers in
    if is_connected s.peer.state
    then (
      true,
      record s {
        host = record s.host {
          bandwidth_limited_peers = if incoming == 0 then others else others + 1;
        };
        peer = record s.peer {
          bandwidth = record s.peer.bandwidth {
            incoming_bandwidth = incoming;
            outgoing_bandwidth = outgoing;
          };
          window_size = window_for incoming s.host.outgoing_bandwidth;
        };
      },
    )
    else (false, s)

-- enet_protocol_handle_throttle_configure
unfoldable pub handle_throttle_configure : ℕ → ℕ → ℕ → Site → Bool × Site
unfolding is_connected
handle_throttle_configure interval acceleration deceleration s =
    if is_connected s.peer.state
    then (
      true,
      record s {
        peer = record s.peer {
          throttle = record s.peer.throttle {
            packet_throttle_interval = interval;
            packet_throttle_acceleration = acceleration;
            packet_throttle_deceleration = deceleration;
          };
        };
      },
    )
    else (false, s)

-- `peer -> eventData = data` unless the peer is disconnected by now.
unfoldable pub leave_data : ℕ → Site → Site
leave_data data_ s = elim s.peer.state [
  | disconnected ↦ s
  | _ ↦ record s { peer = record s.peer { event_data = data_ } }
]

-- The branches of enet_protocol_handle_disconnect behind the reset of the queues, by the state.
unfoldable pub disconnect_in : PeerState → Bool → Site → Site
unfolding change_state dispatch_state reset
disconnect_in connection_succeeded wants_acknowledgement s = dispatch_state zombie s
disconnect_in disconnecting wants_acknowledgement s = dispatch_state zombie s
disconnect_in connecting wants_acknowledgement s = dispatch_state zombie s
disconnect_in connection_pending wants_acknowledgement s = reset (recalculate s)
disconnect_in connected true s = change_state acknowledging_disconnect s
disconnect_in connected false s = dispatch_state zombie s
disconnect_in disconnect_later true s = change_state acknowledging_disconnect s
disconnect_in disconnect_later false s = dispatch_state zombie s
disconnect_in _ wants_acknowledgement s = reset s

-- `state == DISCONNECTED || state == ZOMBIE || state == ACKNOWLEDGING_DISCONNECT`
unfoldable pub is_gone : PeerState → Bool
is_gone disconnected = true
is_gone zombie = true
is_gone acknowledging_disconnect = true
is_gone _ = false

-- enet_protocol_handle_disconnect, which always returns 0.
unfoldable pub handle_disconnect : Protocol → ℕ → Site → Site
unfolding is_gone disconnect_in leave_data reset_queues
handle_disconnect command data_ s =
    if is_gone s.peer.state
    then s
    else leave_data data_ (
        disconnect_in s.peer.state (Command.is_acknowledged command.header.command)
          (reset_queues s))
