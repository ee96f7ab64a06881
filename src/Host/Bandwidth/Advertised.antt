-- ===== src/Host/Bandwidth/Advertised.antt =====
-- toxtun/host.c, enet_host_bandwidth_throttle: the limits that the peers of a host are told.
use toxsh.Prelude.{
  ℕ, subst, ap, ◌+◌, ◌*◌, ◌≤◌, ◌<◌, ◌≡◌, ◌⊎◌, inl, inr, Bool, true, false, not, ◌&&◌, ◌==◌, List,
  [], ◌∷◌, sub32, if◌then◌else◌, arith,
}
use toxsh.State.{Peer}
use toxsh.Peer.Connection.{is_connected}
use toxsh.Host.Bandwidth.{Shares, sweep, share_peer, limit_for}
use toxsh.Host.Bandwidth.Sweeps.{total}

-- Whether a round has found that the peer needs no more than it can send, and whether it is connected
-- and none has.
unfoldable pub is_satisfied : ℕ → Peer → Bool
unfolding is_connected
is_satisfied now p = is_connected p.state && (p.bandwidth.incoming_bandwidth_throttle_epoch == now)

unfoldable pub is_waiting : ℕ → Peer → Bool
unfolding is_connected
is_waiting now p =
    is_connected p.state && not (p.bandwidth.incoming_bandwidth_throttle_epoch == now)

-- 1 for a peer that waits, and the bandwidth that a peer was given.
unfoldable pub waits : ℕ → Peer → ℕ
unfolding is_waiting
waits now p = if is_waiting now p then 1 else 0

unfoldable pub given : ℕ → Peer → ℕ
unfolding is_satisfied
given now p = if is_satisfied now p then p.bandwidth.outgoing_bandwidth else 0

-- What a connected peer is told, 0 for the others.
unfoldable pub told : ℕ → ℕ → Peer → ℕ
unfolding is_connected limit_for
told now limit p = if is_connected p.state then limit_for now limit p else 0

-- The peers that are told at most `limit` each, and all of them what they were given.
pub total-told :
    (now limit : ℕ) (ps : List Peer)
    → total (told now limit) ps ≡ total (given now) ps + total (waits now) ps * limit
unfolding total told given waits is_satisfied is_waiting limit_for
total-told now limit [] = omega arith
total-told now limit (p ∷ ps) = grind (arith, total-told now limit ps)

-- What is left to share out, with what was given, stays the same; and so does the number of peers that
-- is left to those that wait.
pub record Balance (now limit : ℕ) (a b : Shares) (ps qs : List Peer) : Type 0 where
  pub shared : b.bandwidth + total (given now) qs ≡ a.bandwidth + total (given now) ps
  pub counted : b.peers_remaining + total (waits now) ps ≡ a.peers_remaining + total (waits now) qs
  pub same : b.bandwidth_limit ≡ limit
  pub below : b.bandwidth < 4294967296
  pub small : b.peers_remaining < 4294967296
  pub kept : a.needs_adjustment ≡ true → b.needs_adjustment ≡ true
  pub idle :
      b.needs_adjustment ≡ false
      → (b.bandwidth ≡ a.bandwidth) × (b.peers_remaining ≡ a.peers_remaining)

-- One peer: nothing changes, or a peer that waits is given at most the limit.
pub record Served (now limit : ℕ) (a b : Shares) (p q : Peer) : Type 0 where
  pub waited : waits now p ≡ 1
  pub gone : waits now q ≡ 0
  pub none_before : given now p ≡ 0
  pub modest : given now q ≤ limit
  pub frugal : (given now q ≡ 0) ⊎ (given now q < limit)
  pub less : b.bandwidth ≡ sub32 a.bandwidth (given now q)
  pub fewer : b.peers_remaining ≡ sub32 a.peers_remaining 1
  pub same : b.bandwidth_limit ≡ a.bandwidth_limit
  pub adjusted : b.needs_adjustment ≡ true

pub share_peer-cases :
    (now : ℕ) (a : Shares) (p : Peer)
    → (((share_peer now a p).0 ≡ a) × ((share_peer now a p).1 ≡ p))
      ⊎ Served now a.bandwidth_limit a (share_peer now a p).0 p (share_peer now a p).1
unfolding share_peer waits given is_waiting is_satisfied
share_peer-cases now a p = ground arith

Balance-take :
    (now limit : ℕ) (a b c : Shares) (p q : Peer) (ps qs : List Peer)
    → limit ≤ a.bandwidth
    → a.bandwidth < 4294967296
    → 0 < a.peers_remaining
    → a.peers_remaining < 4294967296
    → Served now limit a b p q
    → Balance now limit b c ps qs
    → Balance now limit a c (p ∷ ps) (q ∷ qs)
unfolding total
Balance-take now limit a b c p q ps qs room below some_left small s r = record {
  shared = omega (arith, s.modest, s.less, s.none_before, r.shared);
  counted = omega (arith, s.waited, s.gone, s.fewer, r.counted);
  same = r.same;
  below = r.below;
  small = r.small;
  kept = λ e. r.kept s.adjusted;
  idle = λ e. absurd (grind (arith, r.kept s.adjusted, e));
}

Balance-skip :
    (now limit : ℕ) (a b : Shares) (p : Peer) (ps qs : List Peer)
    → Balance now limit a b ps qs
    → Balance now limit a b (p ∷ ps) (p ∷ qs)
unfolding total
Balance-skip now limit a b p ps qs r = record {
  shared = omega (arith, r.shared);
  counted = omega (arith, r.counted);
  same = r.same;
  below = r.below;
  small = r.small;
  kept = r.kept;
  idle = r.idle;
}

pub sweep-Balance :
    (now limit : ℕ) (a : Shares) (ps : List Peer)
    → a.bandwidth_limit ≡ limit
    → a.bandwidth < 4294967296
    → a.peers_remaining < 4294967296
    → total (waits now) ps * limit ≤ a.bandwidth
    → total (waits now) ps ≤ a.peers_remaining
    → Balance now limit a (sweep (share_peer now) a ps).0 ps (sweep (share_peer now) a ps).1
unfolding sweep total
sweep-Balance now limit a [] same below small room few = ground arith
sweep-Balance now limit a (p ∷ ps) same below small room few = elim (share_peer-cases now a p) [
  | inl (e, e') ↦
      rw (e, e')
        (Balance-skip now limit a _ p ps _
          (sweep-Balance now limit a ps same below small (omega arith) (omega arith)))
  | inr served ↦
      let b = (share_peer now a p).0 in
      let q = (share_peer now a p).1 in
      let s : Served now limit a b p q = subst (λ l. Served now l a b p q) same served in
      let product = ap (λ (n : ℕ). n * limit) s.waited in
      Balance-take now limit a b _ p q ps _ (omega (arith, product)) below (omega (arith, s.waited))
        small s
        (sweep-Balance now limit b ps (cc (s.same, same)) (omega (arith, s.less))
          (omega (arith, s.fewer)) (omega (arith, product, s.modest, s.less))
          (omega (arith, s.waited, s.fewer)))
]
