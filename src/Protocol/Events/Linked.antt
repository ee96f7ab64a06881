-- ===== src/Protocol/Events/Linked.antt =====
-- toxtun/protocol.c: the queue of the peers that have something to report, and their marks.
use toxsh.Prelude.{
  ℕ, suc, ◌+◌, ◌≡◌, ◌≢◌, ◌∙◌, inl, inr, refl, subst, sym, ap, true, false, ◌==◌, ==_iff, List, [],
  ◌∷◌, ◌++◌, Option, none, some, get_elem?, set, get_elem?-set, get_elem?-set_other, if◌then◌else◌,
  Bool-cases, arith,
}
use toxsh.Memory.{Packet, IncomingCommand}
use toxsh.State.{
  Session, Peer, Site, PeerState, connection_pending, connection_succeeded, connected, zombie,
}
use toxsh.World.{World, put_site}
use toxsh.Protocol.Events.{Happening, arrival, relink, dispatch_packet, dispatch_peer}
use toxsh.Peer.Connection.{change_state, on_connect, on_disconnect}
use toxsh.Peer.Reset.{reset, reset_queues, fresh_peer}
use toxsh.Peer.Send.{receive}

-- How often a peer stands in the queue, and how often it should by its mark.
unfoldable pub occurrences : ℕ → List ℕ → ℕ
occurrences i [] = 0
occurrences i (n ∷ ns) = let rest = occurrences i ns in if n == i then suc rest else rest

abbrev pub mark : Peer → ℕ
mark p = if p.needs_dispatch then 1 else 0

occurrences-append :
    (i n : ℕ) (ns : List ℕ)
    → occurrences i (ns ++ n ∷ []) ≡ occurrences i ns + occurrences i (n ∷ [])
unfolding occurrences
occurrences-append i n [] = ground arith
occurrences-append i n (m ∷ ns) = ground (arith, occurrences-append i n ns)

-- What the marks, and the ids, of one peer say.
pub record IsMarked (queue : List ℕ) (i : ℕ) (p : Peer) : Type 0 where
  pub named : p.session.incoming_peer_id ≡ i
  pub marked : occurrences i queue ≡ mark p

-- A peer stands in the queue once if it is marked, and not at all if it is not.
abbrev pub Linked : World → Type 0
Linked w = (i : ℕ) (p : Peer) → get_elem? w.peers i ≡ some p → IsMarked w.host.dispatch_queue i p

read_back :
    (ps : List Peer) (i : ℕ) (p v q : Peer)
    → get_elem? ps i ≡ some p
    → get_elem? (set ps i v) i ≡ some q
    → v ≡ q
read_back ps i p v q e e' = let written = get_elem?-set ps i v e in cc

-- A new peer at `i` that is marked, where the queue is the same for all others.
pub put_site-Linked :
    (i : ℕ) (p : Peer) (s : Site) (w : World)
    → get_elem? w.peers i ≡ some p
    → Linked w
    → ((j : ℕ) → i ≢ j → occurrences j s.host.dispatch_queue ≡ occurrences j w.host.dispatch_queue)
    → IsMarked s.host.dispatch_queue i s.peer
    → Linked (put_site i s w)
put_site-Linked i p s w there linked same marked j q e = elim (Bool-cases (i == j)) [
  | inl e' ↦
      let same_index : i ≡ j = (==_iff i j).0 e' in
      let v : s.peer ≡ q =
        read_back w.peers i p s.peer q there
          (subst (λ k. get_elem? (set w.peers i s.peer) k ≡ some q) (sym same_index) e) in
      subst (λ k. IsMarked s.host.dispatch_queue k q) same_index
        (subst (IsMarked s.host.dispatch_queue i) v marked)
  | inr e' ↦
      let apart : i ≢ j = λ h. ground arith in
      let old = linked j q (sym (get_elem?-set_other w.peers i j s.peer apart) ∙ e) in
      record { named = old.named; marked = same j apart ∙ old.marked }
]

-- What a step does to the queue and the mark of its peer.
pub record Relinked (queue : List ℕ) (i : ℕ) (s : Site) : Type 0 where
  pub others : (j : ℕ) → i ≢ j → occurrences j s.host.dispatch_queue ≡ occurrences j queue
  pub own : IsMarked s.host.dispatch_queue i s.peer

-- A peer that is in no queue and not marked.
abbrev pub Unmarked : ℕ → Site → Type 0
Unmarked i s =
    (s.peer.session.incoming_peer_id ≡ i)
    × (s.peer.needs_dispatch ≡ false)
    × (occurrences i s.host.dispatch_queue ≡ 0)

relink-Relinked : (i : ℕ) (s : Site) → Unmarked i s → Relinked s.host.dispatch_queue i (relink s)
unfolding relink occurrences
relink-Relinked i s h = record {
  others = λ j apart.
      ground (arith, occurrences-append j s.peer.session.incoming_peer_id s.host.dispatch_queue);
  own = record {
    named = h.0;
    marked =
        ground (arith, occurrences-append i s.peer.session.incoming_peer_id s.host.dispatch_queue);
  };
}

same-Relinked :
    (i : ℕ) (s t : Site)
    → t.host.dispatch_queue ≡ s.host.dispatch_queue
    → t.peer.needs_dispatch ≡ false
    → t.peer.session.incoming_peer_id ≡ s.peer.session.incoming_peer_id
    → Unmarked i s
    → Relinked s.host.dispatch_queue i t
same-Relinked i s t queue unmarked id h = record {
  others = λ j apart. ap (occurrences j) queue;
  own = record { named = id ∙ h.0; marked = let e = ap (occurrences i) queue in ground arith };
}

-- A step that reports something.
unfoldable pub StepRelinks : ℕ → List ℕ → Option (Happening × Site) → Type 0
StepRelinks i queue none = Unit
StepRelinks i queue (some (happening, s)) = Relinked queue i s

receive-keeps :
    (p : Peer)
    → ((receive p).1.needs_dispatch ≡ p.needs_dispatch) × ((receive p).1.session ≡ p.session)
unfolding receive
receive-keeps p = ground arith

-- What is left of the packets decides on the place in the queue.
arrival-StepRelinks :
    (i : ℕ) (s : Site) (taken : Option (ℕ × Packet)) (left : List IncomingCommand)
    → Unmarked i s
    → StepRelinks i s.host.dispatch_queue (elim taken [
      | none ↦ none
      | some (channel, packet) ↦
          some (arrival channel packet, elim left [ [] ↦ s | c ∷ cs ↦ relink s ])
    ])
unfolding StepRelinks
arrival-StepRelinks i s none left h = tt
arrival-StepRelinks i s (some (channel, packet)) [] h = same-Relinked i s s refl h.1 refl h
arrival-StepRelinks i s (some (channel, packet)) (c ∷ cs) h = relink-Relinked i s h

dispatch_packet-StepRelinks :
    (i : ℕ) (s : Site) → Unmarked i s → StepRelinks i s.host.dispatch_queue (dispatch_packet s)
unfolding dispatch_packet
dispatch_packet-StepRelinks i s h =
    let kept = receive-keeps s.peer in
    let p = (receive s.peer).1 in
    arrival-StepRelinks i (record s { peer = p }) (receive s.peer).0 p.queues.dispatched_commands
      (ap (λ (x : Session). x.incoming_peer_id) kept.1 ∙ h.0, kept.0 ∙ h.1, h.2)

change_state-keeps :
    (state : PeerState) (s : Site)
    → let t = change_state state s in
      (t.host.dispatch_queue ≡ s.host.dispatch_queue)
      × (t.peer.needs_dispatch ≡ s.peer.needs_dispatch)
      × (t.peer.session ≡ s.peer.session)
unfolding change_state on_connect on_disconnect
change_state-keeps state s = ground arith

reset-keeps :
    (s : Site)
    → s.peer.needs_dispatch ≡ false
    → let t = reset s in
      (t.host.dispatch_queue ≡ s.host.dispatch_queue)
      × (t.peer.needs_dispatch ≡ false)
      × (t.peer.session.incoming_peer_id ≡ s.peer.session.incoming_peer_id)
unfolding reset reset_queues on_disconnect fresh_peer
reset-keeps s h = ground arith

pub dispatch_peer-StepRelinks :
    (i : ℕ) (state : PeerState) (s : Site)
    → Unmarked i s
    → StepRelinks i s.host.dispatch_queue (dispatch_peer state s)
unfolding StepRelinks dispatch_peer
dispatch_peer-StepRelinks i connection_pending s h =
    let kept = change_state-keeps connected s in
    same-Relinked i s (change_state connected s) kept.0 (kept.1 ∙ h.1)
      (ap (λ (x : Session). x.incoming_peer_id) kept.2) h
dispatch_peer-StepRelinks i connection_succeeded s h =
    let kept = change_state-keeps connected s in
    same-Relinked i s (change_state connected s) kept.0 (kept.1 ∙ h.1)
      (ap (λ (x : Session). x.incoming_peer_id) kept.2) h
dispatch_peer-StepRelinks i zombie s h =
    let s' : Site = record s { host = record s.host { recalculate_bandwidth_limits = true } } in
    let kept = reset-keeps s' h.1 in same-Relinked i s (reset s') kept.0 kept.1 kept.2 h
dispatch_peer-StepRelinks i connected s h = dispatch_packet-StepRelinks i s h
dispatch_peer-StepRelinks i _ s h = tt
