-- ===== src/Tests/Protocol.antt =====
-- Handlers on the connected peer.
use toxsh.Prelude.{◌≡◌, ◌/◌, ◌-◌, u32, ◌≢◌, ◌≤◌, ◌<◌, ◌+◌, refl, true, [], ◌∷◌, arith, length, u16}
use toxsh.Wire.{Protocol, Handshake, send_unsequenced}
use toxsh.State.{Site}
use toxsh.Peer.Throttle.{peer_throttle, peer_throttle-limit}
use toxsh.Peer.Connection.{is_connected}
use toxsh.Protocol.Result.{Handled, done, error, fault}
use toxsh.Protocol.Control.{handle_bandwidth_limit, notify_disconnect}
use toxsh.Protocol.Data.{unsequenced_in, is_group_in_reach}
use toxsh.Protocol.Data.Once.{unsequenced_once}
use toxsh.Protocol.Counters.{IsCounted}
use toxsh.Protocol.History.{begin, limits, ends, History-IsCounted}
use toxsh.Protocol.Acknowledge.{sent_time_of, time_difference, sample}
use toxsh.Protocol.Acknowledge.Clock.{sent_time_of-u16, sample-between, apart}
use toxsh.Protocol.Handshake.{
  accept, offered_window, channels_for, is_channel_count, next_session, next_session-fresh,
  accept-bounds,
}
use toxsh.Tests.Fixtures.{quiet_site, quiet_host, quiet_peer, ample}

abbrev unsequenced : Protocol
unsequenced = record {
  header = record { command = 0x49; channel_id = 0; reliable_sequence_number = 0 };
  body = send_unsequenced 5 2;
}

abbrev site_of : Handled → Site
site_of (done rest s) = s
site_of (error rest s) = s
site_of fault = quiet_site

abbrev once : Site
once = site_of (unsequenced_in ample unsequenced 5 2 (1 ∷ 2 ∷ []) quiet_site [])

once_done : unsequenced_in ample unsequenced 5 2 (1 ∷ 2 ∷ []) quiet_site [] ≡ done [] once
unfolding unsequenced_in
once_done = refl

once_queued : length once.peer.dispatched_commands ≡ 1
unfolding unsequenced_in
once_queued = refl

unsequenced_once_example : unsequenced_in ample unsequenced 5 2 (1 ∷ 2 ∷ []) once [] ≡ done [] once
unsequenced_once_example =
    unsequenced_once ample ample unsequenced 5 2 (1 ∷ 2 ∷ []) [] quiet_site once refl
      (unfold is_group_in_reach in refl) (omega arith) once_done

quiet_site-IsCounted : IsCounted 0 0 quiet_site
unfolding is_connected
quiet_site-IsCounted = record { all = refl; slow = refl; small = omega arith; few = omega arith }

abbrev ended : Site
ended = (notify_disconnect true (handle_bandwidth_limit 1000 0 quiet_site).1).1

none_left : ended.host.connected_peers ≡ 0
unfolding notify_disconnect handle_bandwidth_limit
none_left = refl

History-IsCounted_example : IsCounted 0 0 ended
History-IsCounted_example =
    History-IsCounted 0 0 quiet_site-IsCounted (ends (limits begin 1000 0) true)

sent_time_of-u16_example :
    (sent_time_of 65540 (u16 65530) ≡ 65530) × (65530 + time_difference 65540 65530 ≡ 65540)
sent_time_of-u16_example = sent_time_of-u16 65540 65530 (omega arith) (omega arith) (omega arith)

sample-between_example :
    let mean = (sample 100 quiet_peer.round_trip).round_trip_time in
    (apart 100 mean
      ≡ apart 100 quiet_peer.round_trip.round_trip_time
        - apart 100 quiet_peer.round_trip.round_trip_time / 8)
    × (quiet_peer.round_trip.round_trip_time ≤ 100 → mean ≤ 100)
    × (100 ≤ quiet_peer.round_trip.round_trip_time → 100 ≤ mean)
    × ((sample 100 quiet_peer.round_trip).round_trip_time_variance
        ≡ u32 (
            quiet_peer.round_trip.round_trip_time_variance
            - quiet_peer.round_trip.round_trip_time_variance / 4
            + apart 100 mean / 4))
sample-between_example = sample-between 100 quiet_peer.round_trip (omega arith) (omega arith)

next_session-fresh_example : (next_session 255 3 < 4) × (next_session 255 3 ≢ 3)
next_session-fresh_example = next_session-fresh 255 3

abbrev greedy : Handshake
greedy = record {
  outgoing_peer_id = 0;
  incoming_session_id = 255;
  outgoing_session_id = 255;
  mtu = 100000;
  window_size = 1;
  channel_count = 3;
  incoming_bandwidth = 1;
  outgoing_bandwidth = 0;
  packet_throttle_interval = 5000;
  packet_throttle_acceleration = 2;
  packet_throttle_deceleration = 2;
  connect_id = 9;
}

accept-bounds_example :
    let p = accept quiet_host greedy 0 quiet_peer in
    (576 ≤ p.mtu)
    × (p.mtu ≤ 4096)
    × (4096 ≤ p.window_size)
    × (p.window_size ≤ 65536)
    × (4096 ≤ offered_window quiet_host greedy)
    × (offered_window quiet_host greedy ≤ 65536)
    × (1 ≤ channels_for quiet_host greedy)
    × (channels_for quiet_host greedy ≤ 255)
accept-bounds_example =
    accept-bounds quiet_host greedy 0 quiet_peer (unfold is_channel_count in refl) (omega arith)

peer_throttle-limit_example :
    (peer_throttle 40 quiet_peer.round_trip quiet_peer.throttle).1.packet_throttle
    ≤ (peer_throttle 40 quiet_peer.round_trip quiet_peer.throttle).1.packet_throttle_limit
peer_throttle-limit_example =
    peer_throttle-limit 40 quiet_peer.round_trip quiet_peer.throttle (omega arith)
