-- ===== src/Peer/Throttle.antt =====
-- toxtun/peer.c, enet_peer_throttle: the share of unreliable packets that is sent.
use toxsh.Prelude.{ℕ, ◌+◌, ◌-◌, ◌*◌, ◌≤◌, ltb, leb, if◌then◌else◌, u32, arith}
use toxsh.State.{RoundTrip, Throttle}

-- The result: 0, 1 or -1.
pub data Adjustment : Type 0 where
  unchanged raised lowered : Adjustment

-- enet_peer_throttle
unfoldable pub peer_throttle : ℕ → RoundTrip → Throttle → Adjustment × Throttle
peer_throttle rtt r t =
    let more = u32 (t.packet_throttle + t.packet_throttle_acceleration) in
    if leb r.last_round_trip_time r.last_round_trip_time_variance
    then (unchanged, record t { packet_throttle = t.packet_throttle_limit })
    else if ltb rtt r.last_round_trip_time
    then (
      raised,
      record t {
        packet_throttle =
            if ltb t.packet_throttle_limit more then t.packet_throttle_limit else more;
      },
    )
    else if ltb (u32 (r.last_round_trip_time + u32 (2 * r.last_round_trip_time_variance))) rtt
    then (
      lowered,
      record t {
        packet_throttle =
            if ltb t.packet_throttle_deceleration t.packet_throttle
            then t.packet_throttle - t.packet_throttle_deceleration
            else 0;
      },
    )
    else (unchanged, t)

-- A throttle within its limit stays within it.
pub peer_throttle-limit :
    (rtt : ℕ) (r : RoundTrip) (t : Throttle)
    → t.packet_throttle ≤ t.packet_throttle_limit
    → (peer_throttle rtt r t).1.packet_throttle ≤ (peer_throttle rtt r t).1.packet_throttle_limit
unfolding peer_throttle
peer_throttle-limit rtt r t h = ground arith
