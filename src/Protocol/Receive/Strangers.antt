-- ===== src/Protocol/Receive/Strangers.antt =====
-- toxtun/protocol.c: a datagram of no peer, and the peers in use.
use toxsh.Prelude.{
  ℕ, suc, ◌+◌, ◌≡◌, refl, subst, Bool, true, false, not, ◌||◌, leb, List, [], ◌∷◌, Option, none,
  some, get_elem?, if◌then◌else◌, arith,
}
use toxsh.Wire.{Handshake}
use toxsh.Memory.{Store}
use toxsh.State.{Address, Host, Peer, disconnected, Site}
use toxsh.Protocol.Handshake.{
  Seen, free, unrelated, same_host, same_connection, see_peer, compare_peer, search_peers, Accepted,
  refused, accepted, broken, answer, handle_connect, is_channel_count,
}
use toxsh.Peer.Outgoing.{queue_outgoing_command}

-- The peer that the search finds is not in use.
FindsFree : ℕ → List Peer → Option (Option ℕ × ℕ) → Type 0
FindsFree i ps (some (some k, n)) =
    (m : ℕ) × (p : Peer) × (k ≡ i + m) × (get_elem? ps m ≡ some p) × (p.state ≡ disconnected)
FindsFree i ps _ = Unit

see_peer-free :
    (from : Address) (id : ℕ) (p : Peer) → see_peer from id p ≡ free → p.state ≡ disconnected
unfolding see_peer compare_peer
see_peer-free from id p e = ground arith

search_peers-FindsFree :
    (from : Address) (id i : ℕ) (ps : List Peer) → FindsFree i ps (search_peers from id i ps)
unfolding search_peers FindsFree
search_peers-FindsFree from id i [] = tt
search_peers-FindsFree from id i (p ∷ ps) =
    seen (search_peers from id (suc i) ps) (see_peer from id p) (see_peer-free from id p)
      (search_peers-FindsFree from id (suc i) ps)
  where
    seen :
        (o : Option (Option ℕ × ℕ)) (s : Seen)
        → (s ≡ free → p.state ≡ disconnected)
        → FindsFree (suc i) ps o
        → FindsFree i (p ∷ ps) (elim o [
          | none ↦ none
          | some (later, duplicates) ↦ elim s [
            | free ↦ some (some i, duplicates)
            | unrelated ↦ some (later, duplicates)
            | same_host ↦ some (later, duplicates + 1)
            | same_connection ↦ none
          ]
        ])
    seen none s h rest = tt
    seen (some (later, n)) free h rest = (0, p, omega arith, refl, h refl)
    seen (some (none, n)) unrelated h rest = tt
    seen (some (some k, n)) unrelated h (m, q, e, e', e'') = (suc m, q, omega (arith, e), e', e'')
    seen (some (none, n)) same_host h rest = tt
    seen (some (some k, n)) same_host h (m, q, e, e', e'') = (suc m, q, omega (arith, e), e', e'')
    seen (some (later, n)) same_connection h rest = tt

-- A connection takes a peer that was not in use.
unfoldable pub TakesFree : List Peer → Accepted → Type 0
TakesFree ps (accepted k s) = (p : Peer) × (get_elem? ps k ≡ some p) × (p.state ≡ disconnected)
TakesFree ps refused = Unit
TakesFree ps broken = Unit

answer-TakesFree :
    (alloc : Bool) (h : Handshake) (data_ : ℕ) (host : Host) (store : Store) (i : ℕ) (p : Peer)
    (ps : List Peer)
    → get_elem? ps i ≡ some p
    → p.state ≡ disconnected
    → TakesFree ps (answer alloc h data_ host store i p)
unfolding answer TakesFree
answer-TakesFree alloc h data_ host store i p ps e e' =
    sent (queue_outgoing_command alloc _ none 0 0 _)
  where
    sent :
        (o : Option (Bool × Site))
        → TakesFree ps (elim o [ none ↦ broken | some (b, s) ↦ accepted i s ])
    sent none = tt
    sent (some (b, s)) = (p, e, e')

choose-TakesFree :
    (ps : List Peer) (b : Bool) (x y : Accepted)
    → TakesFree ps x
    → TakesFree ps y
    → TakesFree ps (if b then x else y)
choose-TakesFree ps true x y h h' = h
choose-TakesFree ps false x y h h' = h'

pub handle_connect-TakesFree :
    (channels command : Bool) (h : Handshake) (data_ : ℕ) (host : Host) (ps : List Peer)
    (store : Store)
    → TakesFree ps (handle_connect channels command h data_ host ps store)
unfolding handle_connect TakesFree FindsFree
handle_connect-TakesFree channels command h data_ host ps store =
    choose-TakesFree ps (not (is_channel_count h.channel_count)) refused _ tt (
      searched (search_peers host.received_address h.connect_id 0 ps)
        (search_peers-FindsFree host.received_address h.connect_id 0 ps))
  where
    searched :
        (o : Option (Option ℕ × ℕ))
        → FindsFree 0 ps o
        → TakesFree ps (elim o [
          | none ↦ refused
          | some (none, duplicates) ↦ refused
          | some (some i, duplicates) ↦ elim (get_elem? ps i) [
            | none ↦ broken
            | some p ↦
                if leb host.duplicate_peers duplicates || not channels
                then refused
                else answer command h data_ host store i p
          ]
        ])
    searched none found = tt
    searched (some (none, n)) found = tt
    searched (some (some i, n)) (m, q, e, there, unused) =
        let there' : get_elem? ps i ≡ some q =
          subst (λ k. get_elem? ps k ≡ some q) (omega arith) there in
        rw there' (
          choose-TakesFree ps (leb host.duplicate_peers n || not channels) refused _ tt
            (answer-TakesFree command h data_ host store i q ps there' unused))
