-- ===== src/Protocol/Events/Sound.antt =====
-- toxtun/protocol.c, enet_protocol_dispatch_incoming_commands: the queue of a host stays sound.
use toxsh.Prelude.{
  ℕ, ◌+◌, ◌≡◌, ◌≢◌, ◌∙◌, inl, inr, refl, sym, ap, subst, false, ◌==◌, ==_iff, List, [], ◌∷◌, Option,
  none, some, get_elem?, set, get_elem?-set, get_elem?-set_other, Bool-cases, arith,
}
use toxsh.State.{Peer, Site}
use toxsh.World.{World, put_site}
use toxsh.Protocol.Events.{
  Happening, Dispatched, idle, reported, lost, pop, dispatch_from, check_events,
}
use toxsh.Protocol.Events.Linked.{
  occurrences, mark, IsMarked, Linked, put_site-Linked, Unmarked, Relinked, StepRelinks,
  dispatch_peer-StepRelinks,
}

-- Each peer stands in the host's queue once if it is marked, and else not; and nothing else does.
pub record IsSoundQueue (w : World) : Type 0 where
  pub linked : Linked w
  pub known :
      (i : ℕ)
      → occurrences i w.host.dispatch_queue ≢ 0
      → (p : Peer) × (get_elem? w.peers i ≡ some p)

-- A write at `i` where the queue is the same for the others.
put_site-IsSoundQueue :
    (i : ℕ) (p : Peer) (s : Site) (w : World)
    → get_elem? w.peers i ≡ some p
    → IsSoundQueue w
    → Relinked w.host.dispatch_queue i s
    → IsSoundQueue (put_site i s w)
put_site-IsSoundQueue i p s w there sound r = record {
  linked = put_site-Linked i p s w there sound.linked r.others r.own;
  known = λ j stands. elim (Bool-cases (i == j)) [
    | inl e ↦ (
      s.peer,
      subst (λ k. get_elem? (set w.peers i s.peer) k ≡ some s.peer) ((==_iff i j).0 e)
          (get_elem?-set w.peers i s.peer there),
    )
    | inr e ↦
        let apart : i ≢ j = λ h. ground arith in
        let (q, at) = sound.known j (λ e'. stands (r.others j apart ∙ e')) in
        (q, get_elem?-set_other w.peers i j s.peer apart ∙ at)
  ];
}

-- The peer at the front of the queue, once it is taken from it.
abbrev popped : Peer → List ℕ → World → Site
popped p queue w = record {
  host = record w.host { dispatch_queue = queue };
  peer = record p { needs_dispatch = false };
  packets = w.packets;
}

behind_front :
    (i : ℕ) (queue : List ℕ) (n : ℕ) → occurrences i (i ∷ queue) ≡ n → occurrences i queue + 1 ≡ n
unfolding occurrences
behind_front i queue n e = ground arith

elsewhere : (i j : ℕ) (queue : List ℕ) → i ≢ j → occurrences j queue ≡ occurrences j (i ∷ queue)
unfolding occurrences
elsewhere i j queue apart = ground arith

popped-Unmarked :
    (i : ℕ) (p : Peer) (queue : List ℕ) (w : World)
    → w.host.dispatch_queue ≡ i ∷ queue
    → IsMarked w.host.dispatch_queue i p
    → Unmarked i (popped p queue w)
popped-Unmarked i p queue w e marked =
    let front = behind_front i queue (mark p) (ap (occurrences i) (sym e) ∙ marked.marked) in
    (marked.named, refl, ground arith)

popped-Relinked :
    (i : ℕ) (p : Peer) (queue : List ℕ) (w : World)
    → w.host.dispatch_queue ≡ i ∷ queue
    → IsMarked w.host.dispatch_queue i p
    → Relinked w.host.dispatch_queue i (popped p queue w)
popped-Relinked i p queue w e marked =
    let clear = popped-Unmarked i p queue w e marked in
    record {
      others = λ j apart. elsewhere i j queue apart ∙ ap (occurrences j) (sym e);
      own = record { named = marked.named; marked = clear.2 };
    }

-- What the loop comes to: a sound queue, and never a link to no peer.
unfoldable pub EndsSound : Dispatched → Type 0
EndsSound (idle w) = IsSoundQueue w
EndsSound (reported i happening w) = IsSoundQueue w
EndsSound lost = ⊥

step-EndsSound :
    (i : ℕ) (p : Peer) (w : World) (rest : Dispatched) (o : Option (Happening × Site))
    → get_elem? w.peers i ≡ some p
    → IsSoundQueue w
    → EndsSound rest
    → StepRelinks i w.host.dispatch_queue o
    → EndsSound
        (elim o [ none ↦ rest | some (happening, s) ↦ reported i happening (put_site i s w) ])
unfolding EndsSound StepRelinks
step-EndsSound i p w rest none there sound h r = h
step-EndsSound i p w rest (some (happening, s)) there sound h r =
    put_site-IsSoundQueue i p s w there sound r

known_front :
    (i : ℕ) (queue : List ℕ) (w : World)
    → w.host.dispatch_queue ≡ i ∷ queue
    → occurrences i w.host.dispatch_queue ≢ 0
known_front i queue w e none_there =
    let front = behind_front i queue 0 (ap (occurrences i) (sym e) ∙ none_there) in
    absurd (omega (arith, front))

dispatch_from-EndsSound :
    (queue : List ℕ) (w : World)
    → w.host.dispatch_queue ≡ queue
    → IsSoundQueue w
    → EndsSound (dispatch_from queue w)
unfolding dispatch_from EndsSound pop
dispatch_from-EndsSound [] w e sound = sound
dispatch_from-EndsSound (i ∷ queue) w e sound =
    let (p, there) = sound.known i (known_front i queue w e) in
    let marked = sound.linked i p there in
    let s = popped p queue w in
    let sound' = put_site-IsSoundQueue i p s w there sound (popped-Relinked i p queue w e marked) in
    let clear = popped-Unmarked i p queue w e marked in
    rw (dispatch_from, there)
      (step-EndsSound i s.peer (pop i p queue w) _ _ (get_elem?-set w.peers i s.peer there) sound'
        (dispatch_from-EndsSound queue (pop i p queue w) refl sound')
        (dispatch_peer-StepRelinks i p.state s clear))

-- enet_host_check_events keeps the queue of a host sound: every peer stands in it once if it is marked,
-- and else not at all. It follows no link to a peer that is not there.
pub check_events-EndsSound : (w : World) → IsSoundQueue w → EndsSound (check_events w)
unfolding check_events
check_events-EndsSound w sound = dispatch_from-EndsSound w.host.dispatch_queue w refl sound
