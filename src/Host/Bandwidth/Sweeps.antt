-- ===== src/Host/Bandwidth/Sweeps.antt =====
-- toxtun/host.c, enet_host_bandwidth_throttle: what holds of every round over the peers.
use toxsh.Prelude.{ℕ, ◌+◌, ◌≤◌, ◌<◌, ◌≡◌, ◌⊎◌, inl, refl, Bool, List, [], ◌∷◌, All, arith}
use toxsh.State.{Peer}
use toxsh.Host.Bandwidth.{sweep}

-- The sum of a measure over the peers.
unfoldable pub total : (Peer → ℕ) → List Peer → ℕ
total m [] = 0
total m (p ∷ ps) = m p + total m ps

module _ {ℓ} {S : Type ℓ} (f : S → Peer → S × Peer) where
  -- A predicate that the body keeps for each peer is kept for all.
  pub sweep-All {κ} :
      (P : Peer → Type κ)
      → ((s : S) (p : Peer) → P p → P (f s p).1)
      → (s : S) (ps : List Peer) → All P ps
      → All P (sweep f s ps).1
  unfolding sweep
  sweep-All P keep s [] h = h
  sweep-All P keep s (p ∷ ps) h = (keep s p h.0, sweep-All P keep (f s p).0 ps h.1)

  -- A round leaves its flag as it was, or the sum of the measure is smaller.
  pub sweep-total :
      (m : Peer → ℕ) (flag : S → Bool)
      → ((s : S) (p : Peer)
          → ((flag (f s p).0 ≡ flag s) × (m (f s p).1 ≤ m p)) ⊎ (m (f s p).1 < m p))
      → (s : S) (ps : List Peer)
      → ((flag (sweep f s ps).0 ≡ flag s) × (total m (sweep f s ps).1 ≤ total m ps))
        ⊎ (total m (sweep f s ps).1 < total m ps)
  unfolding sweep total
  sweep-total m flag step s [] = inl (refl, omega arith)
  sweep-total m flag step s (p ∷ ps) = grind (arith, step s p, sweep-total m flag step (f s p).0 ps)
