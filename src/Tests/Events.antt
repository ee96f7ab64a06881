-- ===== src/Tests/Events.antt =====
-- A host with one peer that has a packet for the application.
use toxsh.Prelude.{
  ℕ, zero, suc, ◌≡◌, ◌≢◌, refl, subst, true, List, [], ◌∷◌, some, none, get_elem?, arith,
}
use toxsh.State.{Peer}
use toxsh.World.{World}
use toxsh.Protocol.Events.{Dispatched, reported, check_events}
use toxsh.Protocol.Events.Linked.{occurrences, IsMarked}
use toxsh.Protocol.Events.Sound.{EndsSound, check_events-EndsSound}
use toxsh.Tests.Fixtures.{quiet_host, quiet_peer, waiting_message}

abbrev talker : Peer
talker = record quiet_peer {
  needs_dispatch = true;
  queues = record quiet_peer.queues {
    dispatched_commands = waiting_message 1 ∷ waiting_message 2 ∷ [];
  };
}

abbrev noisy : World
noisy = record {
  host = record quiet_host { dispatch_queue = 0 ∷ [] };
  peers = talker ∷ [];
  packets = λ a. none;
}

-- The peer is in the queue again, since a second packet is left.
queue_of : Dispatched → List ℕ
queue_of (reported i happening w) = w.host.dispatch_queue
queue_of _ = []

queued_again : queue_of (check_events noisy) ≡ 0 ∷ []
unfolding queue_of check_events
queued_again = refl

talker-IsMarked : (i : ℕ) (p : Peer) → get_elem? noisy.peers i ≡ some p → IsMarked (0 ∷ []) i p
unfolding occurrences
talker-IsMarked zero p e =
    let same : talker ≡ p = cc in
    subst (IsMarked (0 ∷ []) 0) same (record { named = refl; marked = refl })
talker-IsMarked (suc i) p e = absurd (ground arith)

talker_known :
    (i : ℕ) → occurrences i (0 ∷ []) ≢ 0 → (p : Peer) × (get_elem? noisy.peers i ≡ some p)
unfolding occurrences
talker_known zero h = (talker, refl)
talker_known (suc i) h = absurd (h (ground arith))

check_events-EndsSound_example : EndsSound (check_events noisy)
check_events-EndsSound_example =
    check_events-EndsSound noisy (record { linked = talker-IsMarked; known = talker_known })
