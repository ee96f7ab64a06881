-- ===== src/Tests/Bandwidth.antt =====
-- A host that is short of bandwidth.
use toxsh.Prelude.{ℕ, ◌≤◌, ◌≡◌, refl, true, List, [], ◌∷◌, All, Option, some, none, map, arith}
use toxsh.State.{Host, Peer}
use toxsh.World.{World}
use toxsh.Host.Bandwidth.{bandwidth_throttle, limit_peers, share_peers}
use toxsh.Host.Bandwidth.Sweeps.{total}
use toxsh.Host.Bandwidth.Rounds.{IsThrottled}
use toxsh.Host.Bandwidth.Advertised.{told, given, waits}
use toxsh.Host.Bandwidth.Positive.{IsLimited, IsToldLimit}
use toxsh.Host.Bandwidth.Budget.{share_peers-told}
use toxsh.Host.Bandwidth.Outcome.{bandwidth_throttle-IsThrottled}
use toxsh.Tests.Fixtures.{quiet_host, quiet_peer}

-- A peer of a given bandwidth that was sent `sent` bytes.
abbrev peer_of : ℕ → ℕ → ℕ → Peer
peer_of incoming outgoing sent = record quiet_peer {
  bandwidth = record quiet_peer.bandwidth {
    incoming_bandwidth = incoming;
    outgoing_bandwidth = outgoing;
    outgoing_data_total = sent;
  };
}

abbrev two_peers : List Peer
two_peers = peer_of 1000 300 8000 ∷ peer_of 0 4000 2000 ∷ []

abbrev busy_host : Host
busy_host = record quiet_host {
  incoming_bandwidth = 2000;
  outgoing_bandwidth = 5000;
  connected_peers = 2;
  bandwidth_limited_peers = 1;
  recalculate_bandwidth_limits = true;
}

abbrev busy : World
busy = record { host = busy_host; peers = two_peers; packets = λ a. none }

abbrev limits_of : Option (List Peer) → Option (List ℕ)
limits_of none = none
limits_of (some ps) = some (map (λ (p : Peer). p.throttle.packet_throttle_limit) ps)

abbrev told_of : Option (ℕ × List Peer) → Option (List ℕ)
told_of none = none
told_of (some (limit, ps)) = some (map (told 1000 limit) ps)

-- The first peer is held to an eighth, the second to what is left.
limits_found : limits_of (limit_peers 1000 1000 busy_host two_peers) ≡ some (4 ∷ 14 ∷ [])
unfolding limit_peers
limits_found = refl

-- A peer with no limit on what it sends, as is the default, is told 0, for no limit, though the host can
-- take in 2000 bytes a second.
unlimited_is_told :
    told_of (share_peers 1000 busy_host (peer_of 0 0 0 ∷ peer_of 0 0 0 ∷ [])) ≡ some (0 ∷ 0 ∷ [])
unfolding share_peers told
unlimited_is_told = refl

-- The first peer sends at most 300 bytes a second, so the second is told 1700.
shares_found : told_of (share_peers 1000 busy_host two_peers) ≡ some (300 ∷ 1700 ∷ [])
unfolding share_peers told
shares_found = refl

bandwidth_throttle-IsThrottled_example :
    (w' : World) × (bandwidth_throttle (λ i. true) 1000 busy ≡ some w') × All IsThrottled w'.peers
bandwidth_throttle-IsThrottled_example =
    bandwidth_throttle-IsThrottled (λ i. true) 1000 busy
      ((omega arith, omega arith), ((omega arith, omega arith), tt))

share_peers-told_example :
    (limit : ℕ) × (qs : List Peer) × (share_peers 1000 busy_host two_peers ≡ some (limit, qs))
    × (total (told 1000 limit) qs ≤ 2000)
    × All (IsToldLimit 1000 limit) qs
unfolding total waits given IsLimited
share_peers-told_example =
    share_peers-told 1000 busy_host two_peers (omega arith) (omega arith) refl (omega arith) refl
      ((λ e. omega arith), ((λ e. omega arith), tt))
