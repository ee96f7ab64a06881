-- ===== src/Host/Bandwidth/Outcome.antt =====
-- toxtun/host.c, enet_host_bandwidth_throttle as a whole.
use toxsh.Prelude.{
  ℕ, ◌∙◌, ap, zero, suc, subst, sym, ◌≤◌, ◌≡◌, inl, inr, refl, Bool, true, false, ◌==◌, ltb, List,
  [], ◌∷◌, All, Option, none, some, set, u32, sub32, if◌then◌else◌, Bool-cases, bit_or,
}
use toxsh.Wire.{Body, bandwidth_limit}
use toxsh.Wire.Command
use toxsh.State.{Peer, Site, Throttle}
use toxsh.World.{World, put_site, site_of}
use toxsh.Peer.Connection.{is_connected}
use toxsh.Peer.Outgoing.{
  own_command, queue_outgoing_command, retain_given, setup_outgoing_command, number_command,
  append_outgoing, new_outgoing,
}
use toxsh.Host.Bandwidth.{
  tell_limits, limit_for, limit_peers, share_peers, recalculate, bandwidth_throttle,
}
use toxsh.Host.Bandwidth.Rounds.{IsThrottled, limit_peers-IsThrottled}
use toxsh.Host.Bandwidth.Ending.{share_peers-IsThrottled}

-- A command of the peer's own is sent without an access out of bounds, and the throttle stays.
queue_own :
    (alloc : Bool) (command : ℕ) (body : Body) (s : Site)
    → (sent : Bool) × (s' : Site) × (queue_outgoing_command alloc
          (own_command command body)
          none
          0
          0
          s
        ≡ some (sent, s'))
      × (s'.peer.throttle ≡ s.peer.throttle)
unfolding queue_outgoing_command retain_given setup_outgoing_command number_command append_outgoing
    new_outgoing
queue_own false command body s = (false, s, refl, refl)
queue_own true command body s = (true, _, refl, refl)

IsThrottled-same : (p q : Peer) → q.throttle ≡ p.throttle → IsThrottled p → IsThrottled q
IsThrottled-same p q e h =
    subst
      (λ (t : Throttle).
        (t.packet_throttle ≤ t.packet_throttle_limit) × (t.packet_throttle_limit ≤ 32))
      (sym e) h

All-set {ℓ κ} :
    {A : Type ℓ} (P : A → Type κ) (xs : List A) (i : ℕ) (v : A)
    → All P xs
    → P v
    → All P (set xs i v)
All-set P [] i v h p = tt
All-set P (x ∷ xs) zero v h p = (p, h.1)
All-set P (x ∷ xs) (suc i) v h p = (h.0, All-set P xs i v h.1 p)

tell_limits-IsThrottled :
    (mallocs : ℕ → Bool) (now limit i : ℕ) (left : List Peer) (w : World)
    → All IsThrottled left
    → All IsThrottled w.peers
    → (w' : World) × (tell_limits mallocs now limit i left w ≡ some w') × All IsThrottled w'.peers
unfolding tell_limits
tell_limits-IsThrottled mallocs now limit i [] w l h = (w, refl, h)
tell_limits-IsThrottled mallocs now limit i (p ∷ left) w l h =
    elim (Bool-cases (is_connected p.state)) [
      | inl e ↦
          let (sent, s, sends, same) =
            queue_own (mallocs i) (bit_or Command.bandwidth_limit Command.flag_acknowledge)
              (bandwidth_limit (limit_for now limit p) w.host.outgoing_bandwidth) (site_of w p) in
          let (w', ends, kept) =
            tell_limits-IsThrottled mallocs now limit (suc i) left (put_site i s w) l.1
              (All-set IsThrottled w.peers i s.peer h (IsThrottled-same p s.peer same l.0)) in
          (w', rw (e, sends) ends, kept)
      | inr e ↦
          let (w', ends, kept) = tell_limits-IsThrottled mallocs now limit (suc i) left w l.1 h in
          (w', rw e ends, kept)
    ]

recalculate-tells :
    (mallocs : ℕ → Bool) (now limit : ℕ) (qs : List Peer) (w : World)
    → let host = record w.host { recalculate_bandwidth_limits = false } in
      share_peers now host w.peers ≡ some (limit, qs)
      → recalculate mallocs now w
        ≡ tell_limits mallocs now limit 0 qs (record w { host = host; peers = qs })
unfolding recalculate
recalculate-tells mallocs now limit qs w e = rw (recalculate, e) refl

recalculate-IsThrottled :
    (mallocs : ℕ → Bool) (now : ℕ) (w : World)
    → All IsThrottled w.peers
    → (w' : World) × (recalculate mallocs now w ≡ some w') × All IsThrottled w'.peers
recalculate-IsThrottled mallocs now w h =
    let host = record w.host { recalculate_bandwidth_limits = false } in
    let (limit, qs, shares, kept) = share_peers-IsThrottled now host w.peers h in
    let (w', ends, kept') =
      tell_limits-IsThrottled mallocs now limit 0 qs (record w { host = host; peers = qs }) kept
        kept in
    (w', recalculate-tells mallocs now limit qs w shares ∙ ends, kept')

bandwidth_throttle-late :
    (mallocs : ℕ → Bool) (now : ℕ) (ps : List Peer) (w : World)
    → let elapsed = sub32 now w.host.bandwidth_throttle_epoch in
      let host = record w.host { bandwidth_throttle_epoch = now } in
      let w' = record w { host = host; peers = ps } in
      ltb elapsed 1000 ≡ false
      → (u32 w.host.connected_peers == 0) ≡ false
      → limit_peers now elapsed host w.peers ≡ some ps
      → bandwidth_throttle mallocs now w
        ≡ (if w.host.recalculate_bandwidth_limits then recalculate mallocs now w' else some w')
unfolding bandwidth_throttle
bandwidth_throttle-late mallocs now ps w e e' limits = rw (e, e', limits) refl

-- enet_host_bandwidth_throttle comes to its end at any time and on any host, with no access out of
-- bounds and whatever its mallocs return; and it leaves the throttle of each peer within its limit and
-- the limit within ENET_PEER_PACKET_THROTTLE_SCALE, if all peers had this before.
pub bandwidth_throttle-IsThrottled :
    (mallocs : ℕ → Bool) (now : ℕ) (w : World)
    → All IsThrottled w.peers
    → (w' : World) × (bandwidth_throttle mallocs now w ≡ some w') × All IsThrottled w'.peers
unfolding bandwidth_throttle
bandwidth_throttle-IsThrottled mallocs now w h =
    let elapsed = sub32 now w.host.bandwidth_throttle_epoch in
    let host = record w.host { bandwidth_throttle_epoch = now } in
    let (ps, limits, kept) = limit_peers-IsThrottled now elapsed host w.peers h in
    let between = record w { host = host; peers = ps } in
    elim (Bool-cases (ltb elapsed 1000)) [
      | inl e ↦ (w, rw e refl, h)
      | inr e ↦ elim (Bool-cases (u32 host.connected_peers == 0)) [
        | inl e' ↦ (record w { host = host }, rw (e, e') refl, h)
        | inr e' ↦
            let late = bandwidth_throttle-late mallocs now ps w e e' limits in
            let branch : Bool → Option World =
              λ b. if b then recalculate mallocs now between else some between in
            elim (Bool-cases host.recalculate_bandwidth_limits) [
              | inl again ↦
                  let (w', ends, kept') = recalculate-IsThrottled mallocs now between kept in
                  (w', late ∙ ap branch again ∙ ends, kept')
              | inr again ↦ (between, late ∙ ap branch again, kept)
            ]
      ]
    ]
