-- ===== src/Host/Bandwidth/Ending.antt =====
-- toxtun/host.c, enet_host_bandwidth_throttle: the rounds that share out the bandwidth come to an end.
use toxsh.Prelude.{
  ℕ, suc, ◌/◌, ◌≤◌, ◌<◌, ◌≡◌, ◌⊎◌, inl, inr, refl, true, false, ◌==◌, List, [], ◌∷◌, All, some,
  length, while_loop, while_loop_ends, Bool-cases, if◌then◌else◌, arith,
}
use toxsh.State.{Host, Peer}
use toxsh.Host.Bandwidth.{Shares, open_shares, share_peer, shares_open, share_round, share_peers}
use toxsh.Host.Bandwidth.Sweeps.{total, sweep-All, sweep-total}
use toxsh.Host.Bandwidth.Rounds.{IsThrottled}

-- 1 for a peer that no round has given its share at `now`.
unfoldable pub unshared : ℕ → Peer → ℕ
unshared now p = if p.bandwidth.incoming_bandwidth_throttle_epoch == now then 0 else 1

share_peer-unshared :
    (now : ℕ) (a : Shares) (p : Peer)
    → let (a', p') = share_peer now a p in
      ((a'.needs_adjustment ≡ a.needs_adjustment) × (unshared now p' ≤ unshared now p))
      ⊎ (unshared now p' < unshared now p)
unfolding share_peer unshared
share_peer-unshared now a p = ground arith

share_peer-IsThrottled :
    (now : ℕ) (a : Shares) (p : Peer) → IsThrottled p → IsThrottled (share_peer now a p).1
unfolding share_peer
share_peer-IsThrottled now a p h = ground arith

pub total-unshared : (now : ℕ) (ps : List Peer) → total (unshared now) ps ≤ length ps
unfolding total unshared
total-unshared now [] = omega arith
total-unshared now (p ∷ ps) = ground (arith, total-unshared now ps)

pub share_round-total :
    (now : ℕ) (s : Shares × List Peer)
    → shares_open (share_round now s) ≡ true
    → total (unshared now) (share_round now s).1 < total (unshared now) s.1
unfolding share_round shares_open
share_round-total now (a, ps) again =
    let round =
      sweep-total (share_peer now) (unshared now) (λ a. a.needs_adjustment)
        (share_peer-unshared now)
        (record a { needs_adjustment = false; bandwidth_limit = a.bandwidth / a.peers_remaining })
        ps in
    ground arith

-- What the loop has found, once it has ended.
pub share_peers-ended :
    (now : ℕ) (host : Host) (ps : List Peer) (s : Shares × List Peer)
    → (host.incoming_bandwidth == 0) ≡ false
    → while_loop shares_open (share_round now) (suc (length ps)) (open_shares host, ps) ≡ some s
    → share_peers now host ps ≡ some (s.0.bandwidth_limit, s.1)
unfolding share_peers
share_peers-ended now host ps s e ends = rw (e, ends) refl

share_round-IsThrottled :
    (now : ℕ) (s : Shares × List Peer) → All IsThrottled s.1 → All IsThrottled (share_round now s).1
unfolding share_round
share_round-IsThrottled now (a, ps) h =
    sweep-All (share_peer now) IsThrottled (share_peer-IsThrottled now) _ ps h

-- The second loop ends in at most as many rounds as there are peers and one, and leaves the throttles
-- within their limits.
pub share_peers-IsThrottled :
    (now : ℕ) (host : Host) (ps : List Peer)
    → All IsThrottled ps
    → (limit : ℕ) × (qs : List Peer) × (share_peers now host ps ≡ some (limit, qs))
      × All IsThrottled qs
unfolding share_peers
share_peers-IsThrottled now host ps h =
    let (s, ends, kept, stop) =
      while_loop_ends shares_open (share_round now) (λ s. All IsThrottled s.1)
        (λ s. total (unshared now) s.1) (λ s p e again. share_round-total now s again)
        (λ s p e. share_round-IsThrottled now s p) (suc (length ps)) (open_shares host, ps)
        (omega (arith, total-unshared now ps)) h in
    elim (Bool-cases (host.incoming_bandwidth == 0)) [
      | inl e ↦ (0, ps, rw e refl, h)
      | inr e ↦ (s.0.bandwidth_limit, s.1, share_peers-ended now host ps s e ends, kept)
    ]
