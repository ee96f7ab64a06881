-- ===== src/Host/Bandwidth/Budget.antt =====
-- toxtun/host.c, enet_host_bandwidth_throttle: the sum of the limits that the peers are told.
use native.Mathlib.Nat.{mul-div-le}
use toxsh.Prelude.{
  ℕ, suc, ◌+◌, ◌*◌, ◌/◌, ◌≤◌, ◌<◌, ◌≡◌, ◌⊎◌, inl, inr, refl, true, false, List, All, some, length,
  while_loop_ends, Bool-cases, arith, ap₂, ap,
}
use toxsh.State.{Host, Peer}
use toxsh.Host.Bandwidth.{Shares, open_shares, shares_open, share_round, share_peers}
use toxsh.Host.Bandwidth.Sweeps.{total}
use toxsh.Host.Bandwidth.Positive.{Alive, share_round-Alive, Alive-told, IsLimited, IsToldLimit}
use toxsh.Host.Bandwidth.Advertised.{told, given, waits, total-told, Balance, sweep-Balance}
use toxsh.Host.Bandwidth.Ending.{unshared, total-unshared, share_round-total, share_peers-ended}

-- Between the rounds: the bandwidth `all` of the host is what is left and what was given, and what the
-- peers are told fits in it once the loop has ended.
record Fair (now all : ℕ) (a : Shares) (ps : List Peer) : Type 0 where
  shared : a.bandwidth + total (given now) ps ≡ all
  counted : a.peers_remaining ≡ total (waits now) ps
  below : a.bandwidth < 4294967296
  small : a.peers_remaining < 4294967296
  fits : shares_open (a, ps) ≡ false → total (told now a.bandwidth_limit) ps ≤ all

-- A round's outcome, with the limit of the round.
Fair-Balance :
    (now all : ℕ) (a b : Shares) (ps qs : List Peer)
    → Fair now all a ps
    → 0 < a.peers_remaining
    → Balance now
        (a.bandwidth / a.peers_remaining)
        (record a { needs_adjustment = false; bandwidth_limit = a.bandwidth / a.peers_remaining })
        b
        ps
        qs
    → Fair now all b qs
unfolding shares_open
Fair-Balance now all a b ps qs f pos r = record {
  shared = omega (arith, f.shared, r.shared);
  counted = omega (arith, f.counted, r.counted);
  below = r.below;
  small = r.small;
  fits = λ e.
      let told_all = total-told now b.bandwidth_limit qs in
      let product = mul-div-le a.bandwidth a.peers_remaining in
      elim (Bool-cases b.needs_adjustment) [
        | inl e' ↦
            let none_waits : total (waits now) qs ≡ 0 = ground (arith, r.counted, f.counted) in
            omega (
              arith,
              told_all,
              ap (λ (n : ℕ). n * b.bandwidth_limit) none_waits,
              f.shared,
              r.shared,
            )
        | inr e' ↦
            let (same, left) = r.idle e' in
            let waiting : total (waits now) qs ≡ a.peers_remaining =
              omega (arith, left, r.counted, f.counted) in
            omega (
              arith,
              told_all,
              ap₂ (λ (n m : ℕ). n * m) waiting r.same,
              product,
              same,
              f.shared,
              r.shared,
            )
      ];
}

share_round-Fair :
    (now all : ℕ) (a : Shares) (ps : List Peer)
    → Fair now all a ps
    → shares_open (a, ps) ≡ true
    → Fair now all (share_round now (a, ps)).0 (share_round now (a, ps)).1
unfolding share_round shares_open
share_round-Fair now all a ps f e =
    let pos : 0 < a.peers_remaining = ground arith in
    let product = mul-div-le a.bandwidth a.peers_remaining in
    let limit = a.bandwidth / a.peers_remaining in
    let room : total (waits now) ps * limit ≤ a.bandwidth =
      omega (arith, product, ap (λ (n : ℕ). n * limit) f.counted) in
    Fair-Balance now all a _ ps _ f pos
      (sweep-Balance now limit _ ps refl f.below f.small room (omega (arith, f.counted)))

open_shares-Fair :
    (now : ℕ) (host : Host) (ps : List Peer)
    → host.incoming_bandwidth < 4294967296
    → host.connected_peers ≡ total (waits now) ps
    → host.connected_peers < 4294967296
    → total (given now) ps ≡ 0
    → Fair now host.incoming_bandwidth (open_shares host) ps
unfolding open_shares shares_open
open_shares-Fair now host ps below counted small before = record {
  shared = omega (arith, before);
  counted = omega (arith, small, counted);
  below = below;
  small = omega arith;
  fits = λ e. omega (arith, total-told now 0 ps, before);
}

share_round-same :
    (now all : ℕ) (a : Shares) (ps : List Peer)
    → Fair now all a ps
    → shares_open (a, ps) ≡ true
    → (share_round now (a, ps)).0.bandwidth_limit ≡ a.bandwidth / a.peers_remaining
unfolding share_round shares_open
share_round-same now all a ps f e =
    let limit = a.bandwidth / a.peers_remaining in
    let room : total (waits now) ps * limit ≤ a.bandwidth =
      omega
        (arith, mul-div-le a.bandwidth a.peers_remaining, ap (λ (n : ℕ). n * limit) f.counted) in
    (sweep-Balance now limit _ ps refl f.below f.small room (omega (arith, f.counted))).same

-- Between the rounds, with what is kept of the limits.
record Shared (now all : ℕ) (s : Shares × List Peer) : Type 0 where
  fair : Fair now all s.0 s.1
  alive : Alive s.0 s.1

share_round-Shared :
    (now all : ℕ) (s : Shares × List Peer)
    → Shared now all s
    → shares_open s ≡ true
    → Shared now all (share_round now s)
share_round-Shared now all (a, ps) h e = record {
  fair = share_round-Fair now all a ps h.fair e;
  alive =
      share_round-Alive now a ps h.alive h.fair.below h.fair.small h.fair.counted
        (share_round-same now all a ps h.fair e) e;
}

-- Once the loop has ended, a limit was found, or no peer is left to be told it.
Shared-limit :
    (now all : ℕ) (s : Shares × List Peer)
    → Shared now all s
    → shares_open s ≡ false
    → (0 < s.0.bandwidth_limit) ⊎ (total (waits now) s.1 ≡ 0)
unfolding shares_open
Shared-limit now all (a, ps) h stop = elim (Bool-cases a.needs_adjustment) [
  | inl e ↦ inr (ground (arith, h.fair.counted))
  | inr e ↦ inl (h.alive.positive e)
]

-- A limit of 0 stands for none. Let the incoming bandwidth of a host be limited, to a byte for each
-- connected peer at least, and let the counter of connected peers be the number of the peers that are
-- connected, none of which has its share at `now`, and each of which has a limit on what it sends. Then
-- enet_host_bandwidth_throttle finds a limit above 0 for each connected peer, and these limits add up to
-- no more than the incoming bandwidth of the host.
pub share_peers-told :
    (now : ℕ) (host : Host) (ps : List Peer)
    → 0 < host.incoming_bandwidth
    → host.incoming_bandwidth < 4294967296
    → host.connected_peers ≡ total (waits now) ps
    → host.connected_peers ≤ host.incoming_bandwidth
    → total (given now) ps ≡ 0
    → All IsLimited ps
    → (limit : ℕ) × (qs : List Peer) × (share_peers now host ps ≡ some (limit, qs))
      × (total (told now limit) qs ≤ host.incoming_bandwidth)
      × All (IsToldLimit now limit) qs
unfolding open_shares
share_peers-told now host ps limited below counted room before all =
    let (s, ends, h, stop) =
      while_loop_ends shares_open (share_round now) (Shared now host.incoming_bandwidth)
        (λ s. total (unshared now) s.1) (λ s p e again. share_round-total now s again)
        (λ s p e. share_round-Shared now _ s p e) (suc (length ps)) (open_shares host, ps)
        (omega (arith, total-unshared now ps))
        (record {
          fair = open_shares-Fair now host ps below counted (omega arith) before;
          alive = record { enough = omega arith; limited = all; positive = λ e. ground arith };
        }) in
    (
      s.0.bandwidth_limit,
      s.1,
      share_peers-ended now host ps s (ground arith) ends,
      h.fair.fits stop,
      Alive-told now s.0.bandwidth_limit s.1 (Shared-limit now _ s h stop) h.alive.limited,
    )
