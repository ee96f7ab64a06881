-- ===== src/Protocol/History.antt =====
-- The counters of a host through the life of a peer.
use toxsh.Prelude.{ℕ, ◌≡◌, Bool}
use toxsh.Wire.{Protocol}
use toxsh.State.{Site}
use toxsh.Peer.Reset.{reset}
use toxsh.Protocol.Control.{
  notify_connect, notify_disconnect, handle_bandwidth_limit, handle_disconnect,
}
use toxsh.Protocol.Counters.{
  IsCounted, kept-IsCounted, reset-IsCounted, handle_bandwidth_limit-IsCounted,
  notify_connect-IsCounted, notify_disconnect-IsCounted, handle_disconnect-IsCounted,
}

-- What happens to a peer: the events that change its state or its bandwidth, and all that does neither.
pub data History (start : Site) : Site → Type 0 where
  begin : History start start
  connects :
      {s : Site} → History start s → (wanted : Bool) → History start (notify_connect wanted s).1
  ends :
      {s : Site} → History start s → (wanted : Bool) → History start (notify_disconnect wanted s).1
  limits :
      {s : Site}
      → History start s
      → (incoming outgoing : ℕ) → History start (handle_bandwidth_limit incoming outgoing s).1
  leaves :
      {s : Site}
      → History start s
      → (command : Protocol) (data_ : ℕ) → History start (handle_disconnect command data_ s)
  resets : {s : Site} → History start s → History start (reset s)
  works :
      {s : Site}
      → History start s
      → (t : Site) → t.peer.state ≡ s.peer.state
      → t.peer.bandwidth.incoming_bandwidth ≡ s.peer.bandwidth.incoming_bandwidth
      → t.host.connected_peers ≡ s.host.connected_peers
      → t.host.bandwidth_limited_peers ≡ s.host.bandwidth_limited_peers
      → History start t

-- Through any history of reported connections and ends, disconnect and bandwidth commands, resets and
-- work that touches neither the state, the bandwidth nor the counters, both counters of the host stay
-- those of the other peers and this peer's own share.
pub History-IsCounted :
    (others limited : ℕ) {s t : Site}
    → IsCounted others limited s
    → History s t
    → IsCounted others limited t
History-IsCounted others limited h begin = h
History-IsCounted others limited h (connects {s} r wanted) =
    notify_connect-IsCounted others limited wanted s (History-IsCounted others limited h r)
History-IsCounted others limited h (ends {s} r wanted) =
    notify_disconnect-IsCounted others limited wanted s (History-IsCounted others limited h r)
History-IsCounted others limited h (limits {s} r incoming outgoing) =
    handle_bandwidth_limit-IsCounted others limited incoming outgoing s
      (History-IsCounted others limited h r)
History-IsCounted others limited h (leaves {s} r command data_) =
    handle_disconnect-IsCounted others limited command data_ s
      (History-IsCounted others limited h r)
History-IsCounted others limited h (resets {s} r) =
    reset-IsCounted others limited s (History-IsCounted others limited h r)
History-IsCounted others limited h (works {s} r t state bandwidth all slow) =
    kept-IsCounted others limited s t (History-IsCounted others limited h r) state bandwidth all
      slow
