-- ===== src/Host/Bandwidth.antt =====
-- toxtun/host.c, enet_host_bandwidth_throttle: its rounds over the peers. Each is a function on what
-- the round has counted and on one peer.
pub mod Sweeps
pub mod Rounds
pub mod Advertised
pub mod Positive
pub mod Ending
pub mod Budget
pub mod Outcome
use toxsh.Prelude.{
  ℕ, zero, suc, ◌+◌, ◌-◌, ◌*◌, ◌/◌, ◌%◌, Bool, true, false, not, ◌&&◌, ◌||◌, ◌==◌, ltb, leb, List,
  [], ◌∷◌, Option, none, some, if◌then◌else◌, u32, sub32, length, bit_or, while_loop,
}
use toxsh.Wire.{bandwidth_limit}
use toxsh.Wire.Command
use toxsh.State.{Host, Peer}
use toxsh.World.{World, put_site, site_of}
use toxsh.Peer.Connection.{is_connected}
use toxsh.Peer.Outgoing.{own_command, queue_outgoing_command}

-- ENET_HOST_BANDWIDTH_THROTTLE_INTERVAL and ENET_PEER_PACKET_THROTTLE_SCALE
abbrev pub throttle_interval : ℕ
throttle_interval = 1000

abbrev pub throttle_scale : ℕ
throttle_scale = 32

-- A `for` over the peers that keeps `s` between them.
unfoldable pub sweep {ℓ} : {S : Type ℓ} → (S → Peer → S × Peer) → S → List Peer → S × List Peer
sweep f s [] = (s, [])
sweep f s (p ∷ ps) = let (s', p') = f s p in let (t, ps') = sweep f s' ps in (t, p' ∷ ps')

-- The variables of the source: what is left to share out, and whether a round changed a peer.
pub record Account : Type 0 where
  pub needs_adjustment : Bool
  pub peers_remaining : ℕ
  pub bandwidth : ℕ
  pub data_total : ℕ

-- The sum of `outgoingDataTotal` over the peers that are connected.
unfoldable pub total_data : ℕ → List Peer → ℕ
unfolding is_connected
total_data n [] = n
total_data n (p ∷ ps) =
    total_data (if is_connected p.state then u32 (n + p.bandwidth.outgoing_data_total) else n) ps

-- The throttle that shrinks `data_total` to `bandwidth`.
unfoldable pub throttle_for : Account → ℕ
throttle_for a =
    if leb a.data_total a.bandwidth
    then throttle_scale
    else u32 (a.bandwidth * throttle_scale) / a.data_total

-- `packetThrottleLimit = limit`, the throttle cut to it, and the totals at 0.
unfoldable pub limit_throttle : ℕ → Peer → Peer
limit_throttle limit p = record p {
  throttle = record p.throttle {
    packet_throttle_limit = limit;
    packet_throttle =
        if ltb limit p.throttle.packet_throttle then limit else p.throttle.packet_throttle;
  };
  bandwidth = record p.bandwidth { incoming_data_total = 0; outgoing_data_total = 0 };
}

-- What a peer can receive in `elapsed` milliseconds.
unfoldable pub allowance : ℕ → Peer → ℕ
allowance elapsed p = u32 (p.bandwidth.incoming_bandwidth * elapsed) / 1000

-- Whether a peer keeps its limit in a round of the first loop.
unfoldable pub is_skipped : ℕ → ℕ → ℕ → Peer → Bool
unfolding is_connected allowance
is_skipped now elapsed throttle p =
    not (is_connected p.state)
    || (p.bandwidth.incoming_bandwidth == 0)
    || (p.bandwidth.outgoing_bandwidth_throttle_epoch == now)
    || leb (u32 (throttle * p.bandwidth.outgoing_data_total) / throttle_scale) (allowance elapsed p)

-- A peer that was limited at `now`.
unfoldable pub mark_limited : ℕ → Peer → Peer
mark_limited now p = record p {
  bandwidth = record p.bandwidth { outgoing_bandwidth_throttle_epoch = now };
}

-- The limit of a peer that is sent more than it can receive, at least 1.
unfoldable pub own_limit : ℕ → Peer → ℕ
unfolding allowance
own_limit elapsed p =
    let limit = u32 (allowance elapsed p * throttle_scale) / p.bandwidth.outgoing_data_total in
    if limit == 0 then 1 else limit

-- The body of the first loop on one peer.
unfoldable pub limit_peer : ℕ → ℕ → ℕ → Account → Peer → Account × Peer
unfolding is_skipped own_limit limit_throttle mark_limited allowance
limit_peer now elapsed throttle a p = if is_skipped now elapsed throttle p then (a, p) else (
  record {
    needs_adjustment = true;
    peers_remaining = sub32 a.peers_remaining 1;
    bandwidth = sub32 a.bandwidth (allowance elapsed p);
    data_total = sub32 a.data_total (allowance elapsed p);
  },
  mark_limited now (limit_throttle (own_limit elapsed p) p),
)

-- `peersRemaining > 0 && needsAdjustment != 0`
unfoldable pub limits_open : Account × List Peer → Bool
limits_open (a, ps) = ltb 0 a.peers_remaining && a.needs_adjustment

-- A round of the first loop.
unfoldable pub limit_round : ℕ → ℕ → Account × List Peer → Account × List Peer
unfolding sweep limit_peer throttle_for
limit_round now elapsed (a, ps) =
    sweep (limit_peer now elapsed (throttle_for a)) (record a { needs_adjustment = false }) ps

-- The peers that no round has limited share one throttle.
unfoldable pub limit_rest : ℕ → ℕ → Peer → Peer
unfolding is_connected limit_throttle
limit_rest now throttle p =
    if not (is_connected p.state) || (p.bandwidth.outgoing_bandwidth_throttle_epoch == now)
    then p
    else limit_throttle throttle p

unfoldable pub limit_rest_all : ℕ → ℕ → List Peer → List Peer
unfolding limit_rest
limit_rest_all now throttle [] = []
limit_rest_all now throttle (p ∷ ps) = limit_rest now throttle p ∷ limit_rest_all now throttle ps

-- The account at the start, for `elapsed` milliseconds.
unfoldable pub open_account : ℕ → Host → List Peer → Account
unfolding total_data
open_account elapsed host ps =
    let limited = ltb 0 host.bandwidth_limited_peers in
    let remaining = u32 host.connected_peers in
    if host.outgoing_bandwidth == 0
    then record {
      needs_adjustment = limited;
      peers_remaining = remaining;
      bandwidth = 4294967295;
      data_total = 4294967295;
    }
    else record {
      needs_adjustment = limited;
      peers_remaining = remaining;
      bandwidth = u32 (host.outgoing_bandwidth * elapsed) / 1000;
      data_total = total_data 0 ps;
    }

-- The part of enet_host_bandwidth_throttle that sets the throttles; `none` where the loop does not end
-- in as many rounds as there are peers and one.
unfoldable pub limit_peers : ℕ → ℕ → Host → List Peer → Option (List Peer)
unfolding while_loop limits_open limit_round open_account limit_rest_all throttle_for
limit_peers now elapsed host ps =
    elim (while_loop limits_open (limit_round now elapsed) (suc (length ps))
      (open_account elapsed host ps, ps)) [
        | none ↦ none
        | some (a, ps') ↦
            some (if ltb 0 a.peers_remaining then limit_rest_all now (throttle_for a) ps' else ps')
      ]

-- The variables of the second loop.
pub record Shares : Type 0 where
  pub needs_adjustment : Bool
  pub peers_remaining : ℕ
  pub bandwidth : ℕ
  pub bandwidth_limit : ℕ

-- The body of the second loop on one peer.
unfoldable pub share_peer : ℕ → Shares → Peer → Shares × Peer
unfolding is_connected
share_peer now a p =
    let outgoing = p.bandwidth.outgoing_bandwidth in
    if not (is_connected p.state)
      || (p.bandwidth.incoming_bandwidth_throttle_epoch == now)
      || (ltb 0 outgoing && leb a.bandwidth_limit outgoing)
    then (a, p)
    else (
      record a {
        needs_adjustment = true;
        peers_remaining = sub32 a.peers_remaining 1;
        bandwidth = sub32 a.bandwidth outgoing;
      },
      record p { bandwidth = record p.bandwidth { incoming_bandwidth_throttle_epoch = now } },
    )

unfoldable pub shares_open : Shares × List Peer → Bool
shares_open (a, ps) = ltb 0 a.peers_remaining && a.needs_adjustment

-- A round of the second loop.
unfoldable pub share_round : ℕ → Shares × List Peer → Shares × List Peer
unfolding sweep share_peer
share_round now (a, ps) =
    sweep (share_peer now)
      (record a { needs_adjustment = false; bandwidth_limit = a.bandwidth / a.peers_remaining }) ps

-- The variables before the second loop.
unfoldable pub open_shares : Host → Shares
open_shares host = record {
  needs_adjustment = true;
  peers_remaining = u32 host.connected_peers;
  bandwidth = host.incoming_bandwidth;
  bandwidth_limit = 0;
}

-- The second loop, and the limit that it finds.
unfoldable pub share_peers : ℕ → Host → List Peer → Option (ℕ × List Peer)
unfolding while_loop shares_open share_round open_shares
share_peers now host ps =
    if host.incoming_bandwidth == 0
    then some (0, ps)
    else elim (while_loop shares_open (share_round now) (suc (length ps)) (open_shares host, ps)) [
      | none ↦ none
      | some (a, ps') ↦ some (a.bandwidth_limit, ps')
    ]

-- The limit that a peer is told.
unfoldable pub limit_for : ℕ → ℕ → Peer → ℕ
limit_for now limit p =
    if p.bandwidth.incoming_bandwidth_throttle_epoch == now
    then p.bandwidth.outgoing_bandwidth
    else limit

-- The loop that tells the peers `left`, from index `i` on; `mallocs` gives the results of malloc.
unfoldable pub tell_limits : (ℕ → Bool) → ℕ → ℕ → ℕ → List Peer → World → Option World
unfolding is_connected queue_outgoing_command limit_for
tell_limits mallocs now limit i [] w = some w
tell_limits mallocs now limit i (p ∷ left) w =
    if is_connected p.state
    then elim (queue_outgoing_command (mallocs i)
        (own_command (bit_or Command.bandwidth_limit Command.flag_acknowledge)
          (bandwidth_limit (limit_for now limit p) w.host.outgoing_bandwidth))
        none 0 0 (site_of w p)) [
          | none ↦ none
          | some (sent, s) ↦ tell_limits mallocs now limit (suc i) left (put_site i s w)
        ]
    else tell_limits mallocs now limit (suc i) left w

-- The part under `host -> recalculateBandwidthLimits`.
unfoldable pub recalculate : (ℕ → Bool) → ℕ → World → Option World
unfolding share_peers tell_limits
recalculate mallocs now w =
    let host = record w.host { recalculate_bandwidth_limits = false } in
    elim (share_peers now host w.peers) [
      | none ↦ none
      | some (limit, ps) ↦ tell_limits mallocs now limit 0 ps (record w { host = host; peers = ps })
    ]

-- enet_host_bandwidth_throttle at the time `now`.
unfoldable pub bandwidth_throttle : (ℕ → Bool) → ℕ → World → Option World
unfolding limit_peers recalculate
bandwidth_throttle mallocs now w =
    let elapsed = sub32 now w.host.bandwidth_throttle_epoch in
    let host = record w.host { bandwidth_throttle_epoch = now } in
    if ltb elapsed throttle_interval
    then some w
    else if u32 host.connected_peers == 0
    then some (record w { host = host })
    else elim (limit_peers now elapsed host w.peers) [
      | none ↦ none
      | some ps ↦
          let w' = record w { host = host; peers = ps } in
          if host.recalculate_bandwidth_limits then recalculate mallocs now w' else some w'
    ]
