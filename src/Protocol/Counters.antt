-- ===== src/Protocol/Counters.antt =====
-- The counters of a host agree with the states of its peers, whatever a peer goes through.
use toxsh.Prelude.{
  ℕ, ◌+◌, ◌<◌, ◌≡◌, refl, Bool, true, false, ◌==◌, if◌then◌else◌, arith, Bool-cases, inl, inr,
}
use toxsh.State.{
  Site, PeerState, disconnected, connecting, acknowledging_connect, connection_pending,
  connection_succeeded, connected, disconnect_later, disconnecting, acknowledging_disconnect,
  zombie,
}
use toxsh.Wire.{Protocol}
use toxsh.Wire.Command
use toxsh.Peer.Connection.{
  is_connected, one_less, on_connect, on_disconnect, change_state, dispatch_state, link_dispatch,
}
use toxsh.Peer.Reset.{reset, reset_queues, fresh_peer}
use toxsh.Protocol.Control.{
  notify_connect, notify_disconnect, handle_bandwidth_limit, handle_disconnect, disconnect_in,
  leave_data, recalculate, is_past_handshake, is_unreported, is_gone,
}

-- What a peer adds to the count of connected peers, and to the count of those with a limited bandwidth.
abbrev share : Bool → ℕ
share b = if b then 1 else 0

abbrev limited_share : Site → ℕ
limited_share s =
    if is_connected s.peer.state
    then (if s.peer.bandwidth.incoming_bandwidth == 0 then 0 else 1)
    else 0

-- The counters count this peer's share and `others` and `limited` of the other peers, no more than there
-- are peers in a host.
pub record IsCounted (others limited : ℕ) (s : Site) : Type 0 where
  pub all : s.host.connected_peers ≡ others + share (is_connected s.peer.state)
  pub slow : s.host.bandwidth_limited_peers ≡ limited + limited_share s
  pub small : others < 4096
  pub few : limited < 4096

module _ (others limited : ℕ) where
  change_state-IsCounted :
      (state : PeerState) (s : Site)
      → IsCounted others limited s
      → IsCounted others limited (change_state state s)
  unfolding change_state on_connect on_disconnect one_less
  change_state-IsCounted state s h =
      let a = h.all in
      let b = h.slow in
      let c = h.small in
      let d = h.few in record { all = ground arith; slow = ground arith; small = c; few = d }

  -- What leaves the state, the incoming bandwidth and both counters leaves this.
  pub kept-IsCounted :
      (s t : Site)
      → IsCounted others limited s
      → t.peer.state ≡ s.peer.state
      → t.peer.bandwidth.incoming_bandwidth ≡ s.peer.bandwidth.incoming_bandwidth
      → t.host.connected_peers ≡ s.host.connected_peers
      → t.host.bandwidth_limited_peers ≡ s.host.bandwidth_limited_peers
      → IsCounted others limited t
  kept-IsCounted s t h state bandwidth all slow = record {
    all = rw (all, state) h.all;
    slow = rw (slow, state, bandwidth) h.slow;
    small = h.small;
    few = h.few;
  }

  link_dispatch-IsCounted :
      (s : Site) → IsCounted others limited s → IsCounted others limited (link_dispatch s)
  unfolding link_dispatch
  link_dispatch-IsCounted s h =
      let a = h.all in
      let b = h.slow in
      record { all = ground arith; slow = ground arith; small = h.small; few = h.few }

  dispatch_state-IsCounted :
      (state : PeerState) (s : Site)
      → IsCounted others limited s
      → IsCounted others limited (dispatch_state state s)
  unfolding dispatch_state
  dispatch_state-IsCounted state s h =
      link_dispatch-IsCounted (change_state state s) (change_state-IsCounted state s h)

  reset_queues-IsCounted :
      (s : Site) → IsCounted others limited s → IsCounted others limited (reset_queues s)
  unfolding reset_queues
  reset_queues-IsCounted s h =
      let a = h.all in
      let b = h.slow in
      record { all = ground arith; slow = ground arith; small = h.small; few = h.few }

  -- The order matters: the counters go down before the state and the bandwidth are cleared.
  cleared-IsCounted :
      (s : Site)
      → IsCounted others limited s
      → IsCounted others limited (record (on_disconnect s) {
        peer = fresh_peer (on_disconnect s).host.mtu (on_disconnect s).peer;
      })
  unfolding on_disconnect one_less fresh_peer is_connected
  cleared-IsCounted s h =
      let a = h.all in
      let b = h.slow in
      let c = h.small in
      let d = h.few in record { all = ground arith; slow = ground arith; small = c; few = d }

  pub reset-IsCounted : (s : Site) → IsCounted others limited s → IsCounted others limited (reset s)
  unfolding reset
  reset-IsCounted s h = reset_queues-IsCounted _ (cleared-IsCounted s h)

  pub handle_bandwidth_limit-IsCounted :
      (incoming outgoing : ℕ) (s : Site)
      → IsCounted others limited s
      → IsCounted others limited (handle_bandwidth_limit incoming outgoing s).1
  unfolding handle_bandwidth_limit one_less
  handle_bandwidth_limit-IsCounted incoming outgoing s h =
      let a = h.all in
      let b = h.slow in
      let c = h.small in
      let d = h.few in record { all = ground arith; slow = ground arith; small = c; few = d }

  recalculate-IsCounted :
      (s : Site) → IsCounted others limited s → IsCounted others limited (recalculate s)
  recalculate-IsCounted s h = kept-IsCounted s (recalculate s) h refl refl refl refl

  pub notify_connect-IsCounted :
      (wanted : Bool) (s : Site)
      → IsCounted others limited s
      → IsCounted others limited (notify_connect wanted s).1
  unfolding notify_connect
  notify_connect-IsCounted true s h = change_state-IsCounted _ _ (recalculate-IsCounted s h)
  notify_connect-IsCounted false s h = dispatch_state-IsCounted _ _ (recalculate-IsCounted s h)

  pub notify_disconnect-IsCounted :
      (wanted : Bool) (s : Site)
      → IsCounted others limited s
      → IsCounted others limited (notify_disconnect wanted s).1
  unfolding notify_disconnect
  notify_disconnect-IsCounted wanted s h =
      let s' = if is_past_handshake s.peer.state then recalculate s else s in
      let h' : IsCounted others limited s' = elim (Bool-cases (is_past_handshake s.peer.state)) [
        | inl past ↦ rw past (recalculate-IsCounted s h)
        | inr early ↦ rw early h
      ] in
      elim (Bool-cases (is_unreported s.peer.state)) [
        | inl quiet ↦ rw quiet (reset-IsCounted s' h')
        | inr loud ↦ elim (Bool-cases wanted) [
          | inl asked ↦ rw (loud, asked) (reset-IsCounted s' h')
          | inr unasked ↦
              rw (loud, unasked)
                (dispatch_state-IsCounted zombie _ (
                  kept-IsCounted s' (record s' { peer = record s'.peer { event_data = 0 } }) h' refl
                    refl refl refl))
        ]
      ]

  disconnect_in-IsCounted :
      (state : PeerState) (wants : Bool) (s : Site)
      → IsCounted others limited s
      → IsCounted others limited (disconnect_in state wants s)
  unfolding disconnect_in
  disconnect_in-IsCounted connection_succeeded wants s h = dispatch_state-IsCounted zombie s h
  disconnect_in-IsCounted disconnecting wants s h = dispatch_state-IsCounted zombie s h
  disconnect_in-IsCounted connecting wants s h = dispatch_state-IsCounted zombie s h
  disconnect_in-IsCounted connection_pending wants s h =
      reset-IsCounted _ (recalculate-IsCounted s h)
  disconnect_in-IsCounted connected true s h = change_state-IsCounted acknowledging_disconnect s h
  disconnect_in-IsCounted connected false s h = dispatch_state-IsCounted zombie s h
  disconnect_in-IsCounted disconnect_later true s h =
      change_state-IsCounted acknowledging_disconnect s h
  disconnect_in-IsCounted disconnect_later false s h = dispatch_state-IsCounted zombie s h
  disconnect_in-IsCounted disconnected wants s h = reset-IsCounted s h
  disconnect_in-IsCounted acknowledging_connect wants s h = reset-IsCounted s h
  disconnect_in-IsCounted acknowledging_disconnect wants s h = reset-IsCounted s h
  disconnect_in-IsCounted zombie wants s h = reset-IsCounted s h

  leave_data-IsCounted :
      (data_ : ℕ) (s : Site)
      → IsCounted others limited s
      → IsCounted others limited (leave_data data_ s)
  unfolding leave_data
  leave_data-IsCounted data_ s h =
      let a = h.all in
      let b = h.slow in
      record { all = ground arith; slow = ground arith; small = h.small; few = h.few }

  pub handle_disconnect-IsCounted :
      (command : Protocol) (data_ : ℕ) (s : Site)
      → IsCounted others limited s
      → IsCounted others limited (handle_disconnect command data_ s)
  unfolding handle_disconnect
  handle_disconnect-IsCounted command data_ s h = elim (Bool-cases (is_gone s.peer.state)) [
    | inl gone ↦ rw gone h
    | inr there ↦ rw there (
        leave_data-IsCounted data_ _ (
          disconnect_in-IsCounted s.peer.state (Command.is_acknowledged command.header.command)
            (reset_queues s) (reset_queues-IsCounted s h)))
  ]
