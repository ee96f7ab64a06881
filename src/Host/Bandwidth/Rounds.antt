-- ===== src/Host/Bandwidth/Rounds.antt =====
-- toxtun/host.c, enet_host_bandwidth_throttle: the limits that it puts on the peers' throttles.
use native.Mathlib.Nat.{mul-le-mul_right, div-lt_iff_lt-mul}
use toxsh.Prelude.{
  ℕ, suc, ◌*◌, ◌/◌, ◌≤◌, ◌<◌, ◌≡◌, ◌⊎◌, inl, inr, refl, true, false, ◌==◌, ltb, leb, List, [], ◌∷◌,
  All, some, u32, length, while_loop, while_loop_ends, Bool-cases, if◌then◌else◌, arith,
}
use toxsh.State.{Host, Peer}
use toxsh.Host.Bandwidth.{
  Account, throttle_for, allowance, is_skipped, own_limit, limit_throttle, mark_limited, limit_peer,
  limits_open, limit_round, limit_rest, limit_rest_all, open_account, limit_peers,
}
use toxsh.Host.Bandwidth.Sweeps.{total, sweep-All, sweep-total}

-- A throttle within its limit, and the limit within the scale.
abbrev pub IsThrottled : Peer → Type 0
IsThrottled p =
    (p.throttle.packet_throttle ≤ p.throttle.packet_throttle_limit)
    × (p.throttle.packet_throttle_limit ≤ 32)

-- 1 for a peer that no round has limited.
unfoldable pub pending : ℕ → Peer → ℕ
pending now p = if p.bandwidth.outgoing_bandwidth_throttle_epoch == now then 0 else 1

quotient-le : (x d b : ℕ) → x ≤ b * d → 0 < d → x / d ≤ b
quotient-le x d b h pos =
    let step : x / d < suc b = (div-lt_iff_lt-mul pos).1 (omega arith) in omega arith

throttle_for-le : (a : Account) → throttle_for a ≤ 32
unfolding throttle_for
throttle_for-le a = elim (Bool-cases (leb a.data_total a.bandwidth)) [
  | inl e ↦ ground arith
  | inr e ↦
      let q = quotient-le (u32 (a.bandwidth * 32)) a.data_total 32 (ground arith) (ground arith) in
      ground arith
]

own_limit-le :
    (now elapsed throttle : ℕ) (p : Peer)
    → throttle ≤ 32
    → is_skipped now elapsed throttle p ≡ false
    → own_limit elapsed p ≤ 32
unfolding own_limit is_skipped
own_limit-le now elapsed throttle p h e =
    let d = p.bandwidth.outgoing_data_total in
    let a = allowance elapsed p in
    let t = mul-le-mul_right d h in
    let over : a < u32 (throttle * d) / 32 = ground arith in
    let q : u32 (a * 32) / d ≤ 32 = quotient-le (u32 (a * 32)) d 32 (omega arith) (omega arith) in
    ground arith

limit_peer-IsThrottled :
    (now elapsed throttle : ℕ)
    → throttle ≤ 32
    → (a : Account) (p : Peer) → IsThrottled p
    → IsThrottled (limit_peer now elapsed throttle a p).1
unfolding limit_peer limit_throttle mark_limited
limit_peer-IsThrottled now elapsed throttle h a p t =
    elim (Bool-cases (is_skipped now elapsed throttle p)) [
      | inl e ↦ ground arith
      | inr e ↦ let le = own_limit-le now elapsed throttle p h e in ground arith
    ]

limit_peer-pending :
    (now elapsed throttle : ℕ) (a : Account) (p : Peer)
    → let (a', p') = limit_peer now elapsed throttle a p in
      ((a'.needs_adjustment ≡ a.needs_adjustment) × (pending now p' ≤ pending now p))
      ⊎ (pending now p' < pending now p)
unfolding limit_peer limit_throttle mark_limited pending is_skipped
limit_peer-pending now elapsed throttle a p = ground arith

limit_rest_all-IsThrottled :
    (now throttle : ℕ)
    → throttle ≤ 32
    → (ps : List Peer) → All IsThrottled ps
    → All IsThrottled (limit_rest_all now throttle ps)
unfolding limit_rest_all limit_rest limit_throttle
limit_rest_all-IsThrottled now throttle h [] t = tt
limit_rest_all-IsThrottled now throttle h (p ∷ ps) t =
    (ground arith, limit_rest_all-IsThrottled now throttle h ps t.1)

total-le : (now : ℕ) (ps : List Peer) → total (pending now) ps ≤ length ps
unfolding total pending
total-le now [] = omega arith
total-le now (p ∷ ps) = ground (arith, total-le now ps)

-- Each round but the last limits a peer that no round had limited.
limit_round-total :
    (now elapsed : ℕ) (s : Account × List Peer)
    → limits_open (limit_round now elapsed s) ≡ true
    → total (pending now) (limit_round now elapsed s).1 < total (pending now) s.1
unfolding limit_round limits_open
limit_round-total now elapsed (a, ps) again =
    let round =
      sweep-total (limit_peer now elapsed (throttle_for a)) (pending now) (λ a. a.needs_adjustment)
        (limit_peer-pending now elapsed (throttle_for a)) (record a { needs_adjustment = false })
        ps in
    ground arith

limit_round-IsThrottled :
    (now elapsed : ℕ) (s : Account × List Peer)
    → All IsThrottled s.1
    → All IsThrottled (limit_round now elapsed s).1
unfolding limit_round
limit_round-IsThrottled now elapsed (a, ps) h =
    sweep-All (limit_peer now elapsed (throttle_for a)) IsThrottled
      (limit_peer-IsThrottled now elapsed (throttle_for a) (throttle_for-le a)) _ ps h

-- What follows the loop, once it has ended.
limit_peers-ended :
    (now elapsed : ℕ) (host : Host) (ps : List Peer) (a : Account) (qs : List Peer)
    → while_loop limits_open
        (limit_round now elapsed)
        (suc (length ps))
        (open_account elapsed host ps, ps)
      ≡ some (a, qs)
    → All IsThrottled qs
    → (ps' : List Peer) × (limit_peers now elapsed host ps ≡ some ps') × All IsThrottled ps'
unfolding limit_peers
limit_peers-ended now elapsed host ps a qs ends h = elim (Bool-cases (ltb 0 a.peers_remaining)) [
  | inl e ↦ (
    limit_rest_all now (throttle_for a) qs,
    rw (limit_peers, ends, e) refl,
    limit_rest_all-IsThrottled now (throttle_for a) (throttle_for-le a) qs h,
  )
  | inr e ↦ (qs, rw (limit_peers, ends, e) refl, h)
]

-- The limits of enet_host_bandwidth_throttle are found in at most as many rounds as there are peers and
-- one, whatever the counters of the host say; and if the throttle of every peer was within its limit
-- and the limit within ENET_PEER_PACKET_THROTTLE_SCALE, they still are.
pub limit_peers-IsThrottled :
    (now elapsed : ℕ) (host : Host) (ps : List Peer)
    → All IsThrottled ps
    → (ps' : List Peer) × (limit_peers now elapsed host ps ≡ some ps') × All IsThrottled ps'
limit_peers-IsThrottled now elapsed host ps h =
    let start : Account × List Peer = (open_account elapsed host ps, ps) in
    let (s, ends, kept, stop) =
      while_loop_ends limits_open (limit_round now elapsed) (λ s. All IsThrottled s.1)
        (λ s. total (pending now) s.1) (λ s p e again. limit_round-total now elapsed s again)
        (λ s p e. limit_round-IsThrottled now elapsed s p) (suc (length ps)) start
        (omega (arith, total-le now ps)) h in
    limit_peers-ended now elapsed host ps s.0 s.1 ends kept
