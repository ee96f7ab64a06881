-- ===== src/Host/Bandwidth/Positive.antt =====
-- toxtun/host.c, enet_host_bandwidth_throttle: peers that are told a limit, as 0 stands for none.
use native.Mathlib.Nat.{mul-div-le, le-div_iff_mul-le}
use toxsh.Prelude.{
  ℕ, ◌+◌, ◌*◌, ◌/◌, ◌≤◌, ◌<◌, ◌≡◌, ◌⊎◌, ◌==◌, inl, inr, refl, ap, subst, true, false, List, [], ◌∷◌,
  All, Bool-cases, arith,
}
use toxsh.State.{Peer}
use toxsh.Peer.Connection.{is_connected}
use toxsh.Host.Bandwidth.{Shares, sweep, share_peer, shares_open, share_round, limit_for}
use toxsh.Host.Bandwidth.Sweeps.{total, sweep-All}
use toxsh.Host.Bandwidth.Advertised.{told, waits, is_waiting, Served, share_peer-cases}

-- If the peer is connected, its own outgoing bandwidth is limited.
unfoldable pub IsLimited : Peer → Type 0
IsLimited p = is_connected p.state ≡ true → 0 < p.bandwidth.outgoing_bandwidth

-- If the peer is connected, the limit that it is told is not 0.
unfoldable pub IsToldLimit : ℕ → ℕ → Peer → Type 0
IsToldLimit now limit p = is_connected p.state ≡ true → 0 < told now limit p

waits-small : (now : ℕ) (p : Peer) → waits now p ≤ 1
unfolding waits
waits-small now p = ground arith

share_peer-IsLimited :
    (now : ℕ) (a : Shares) (p : Peer) → IsLimited p → IsLimited (share_peer now a p).1
unfolding share_peer IsLimited
share_peer-IsLimited now a p h = ground arith

-- A byte is left for each peer that waits, be it passed by or still to come.
sweep-enough :
    (now limit : ℕ) (a : Shares) (ps : List Peer)
    → 0 < limit
    → a.bandwidth_limit ≡ limit
    → a.bandwidth < 4294967296
    → a.peers_remaining < 4294967296
    → total (waits now) ps ≤ a.peers_remaining
    → a.peers_remaining + total (waits now) ps * limit ≤ a.bandwidth + total (waits now) ps
    → (sweep (share_peer now) a ps).0.peers_remaining ≤ (sweep (share_peer now) a ps).0.bandwidth
unfolding sweep total
sweep-enough now limit a [] pos same below small few room = omega arith
sweep-enough now limit a (p ∷ ps) pos same below small few room = elim (share_peer-cases now a p) [
  | inl (e, e') ↦
      let one = waits-small now p in
      rw e (
        sweep-enough now limit a ps pos same below small (omega arith)
          (elim (Bool-cases (waits now p == 0)) [
            | inl none_waits ↦
                let z : waits now p ≡ 0 = ground arith in
                let product = ap (λ (n : ℕ). n * limit) z in omega (arith, product, z)
            | inr waits_on ↦
                let w : waits now p ≡ 1 = ground arith in
                let product = ap (λ (n : ℕ). n * limit) w in omega (arith, product, w)
          ]))
  | inr served ↦
      let b = (share_peer now a p).0 in
      let q = (share_peer now a p).1 in
      let s : Served now limit a b p q = subst (λ l. Served now l a b p q) same served in
      let product = ap (λ (n : ℕ). n * limit) s.waited in
      sweep-enough now limit b ps pos (cc (s.same, same)) (omega (arith, s.less))
        (omega (arith, s.fewer)) (omega (arith, s.waited, s.fewer))
        (omega (arith, product, s.waited, s.fewer, s.less, s.frugal))
]

-- What is kept between the rounds: a byte is left for each peer that waits, and a limit that stands is
-- not 0.
pub record Alive (a : Shares) (ps : List Peer) : Type 0 where
  pub enough : a.peers_remaining ≤ a.bandwidth
  pub limited : All IsLimited ps
  pub positive : a.needs_adjustment ≡ false → 0 < a.bandwidth_limit

pub share_round-Alive :
    (now : ℕ) (a : Shares) (ps : List Peer)
    → Alive a ps
    → a.bandwidth < 4294967296
    → a.peers_remaining < 4294967296
    → a.peers_remaining ≡ total (waits now) ps
    → (share_round now (a, ps)).0.bandwidth_limit ≡ a.bandwidth / a.peers_remaining
    → shares_open (a, ps) ≡ true
    → Alive (share_round now (a, ps)).0 (share_round now (a, ps)).1
unfolding share_round shares_open
share_round-Alive now a ps alive below small counted same e =
    let enough = alive.enough in
    let some_left : 0 < a.peers_remaining = ground arith in
    let limit = a.bandwidth / a.peers_remaining in
    let pos : 0 < limit =
      (le-div_iff_mul-le {k = a.peers_remaining} {x = 1} some_left).1 (omega (arith, enough)) in
    let product = mul-div-le a.bandwidth a.peers_remaining in
    record {
      enough =
          sweep-enough now limit _ ps pos refl below small (omega (arith, counted))
            (omega (arith, counted, product, ap (λ (n : ℕ). n * limit) counted));
      limited = sweep-All (share_peer now) IsLimited (share_peer-IsLimited now) _ ps alive.limited;
      positive = λ h. omega (arith, same, pos);
    }

IsLimited-told :
    (now limit : ℕ) (p : Peer)
    → (0 < limit) ⊎ (waits now p ≡ 0)
    → IsLimited p
    → IsToldLimit now limit p
unfolding IsLimited IsToldLimit told waits is_waiting limit_for
IsLimited-told now limit p h h' = ground arith

pub Alive-told :
    (now limit : ℕ) (ps : List Peer)
    → (0 < limit) ⊎ (total (waits now) ps ≡ 0)
    → All IsLimited ps
    → All (IsToldLimit now limit) ps
unfolding total
Alive-told now limit [] h all = tt
Alive-told now limit (p ∷ ps) (inl pos) all =
    (IsLimited-told now limit p (inl pos) all.0, Alive-told now limit ps (inl pos) all.1)
Alive-told now limit (p ∷ ps) (inr none_waits) all = (
  IsLimited-told now limit p (inr (omega arith)) all.0,
  Alive-told now limit ps (inr (omega arith)) all.1,
)
