-- ===== src/Protocol/Receive/Poll.antt =====
-- toxtun/protocol.c, enet_protocol_receive_incoming_commands: the loop that takes datagrams from the
-- transport. The transport and the intercept callback are arguments; the statistics are left out.
use toxsh.Prelude.{
  ℕ, zero, suc, ◌≡◌, ◌≢◌, ◌∙◌, ap, subst, sym, refl, Bool, true, false, ◌∷◌, [], List, Option, none,
  some, get_elem?, set,
}
use toxsh.Wire.{maximum_peer_id}
use toxsh.Wire.Layout.{short, get}
use toxsh.State.{Address, Peer, Site}
use toxsh.World.{World}
use toxsh.Protocol.Control.{Event}
use toxsh.Protocol.Receive.{Allocation, Reading}
use toxsh.Protocol.Receive.Header.{
  Filters, header_of, Received, received, out_of_bounds, endless, handle_incoming_commands,
}
use toxsh.Protocol.Receive.Guards.{Foreign, handle_incoming_commands-Foreign}

-- What the transport gives: an error, nothing, or a datagram with where it is from. A datagram of no
-- bytes is taken for nothing.
pub data Arrival : Type 0 where
  failure : Arrival
  silence : Arrival
  datagram : Address → List ℕ → Arrival

-- What an intercept callback does: it returns 1, perhaps with an event filled in, or -1, or another
-- number, with no event filled in.
pub data Verdict : Type 0 where
  taken : Reading → Verdict
  refused : World → Verdict
  passed : World → Verdict

-- The results -1, 0 and 1, with what is reported; `broken` is an access through NULL or out of bounds.
pub data Polled : Type 0 where
  failed : World → Polled
  quiet : World → Polled
  happened : ℕ → Event → World → Polled
  broken : Polled

-- `event -> peer -> address = host -> receivedAddress`
unfoldable pub set_address : ℕ → World → World
set_address i w = elim (get_elem? w.peers i) [
  | none ↦ w
  | some p ↦ record w {
    peers =
        set w.peers i
          (record p { session = record p.session { address = w.host.received_address } });
  }
]

-- What follows enet_protocol_handle_incoming_commands; `go` is the next round. `event -> peer` is read
-- though `event` may be NULL.
unfoldable pub after_datagram : Bool → (World → Polled) → Received → Polled
unfolding set_address
after_datagram false go (received r) = broken
after_datagram true go (received r) = elim r.reported [
  | none ↦ go r.world
  | some (i, event) ↦ happened i event (set_address i r.world)
]
after_datagram wanted go out_of_bounds = broken
after_datagram wanted go endless = broken

-- What follows an intercept callback; `handle` is the handling of the datagram.
unfoldable pub after_intercept : Bool → (World → Polled) → (World → Polled) → Verdict → Polled
after_intercept wanted go handle (refused w) = failed w
after_intercept wanted go handle (passed w) = handle w
after_intercept true go handle (taken r) = elim r.reported [
  | none ↦ go r.world
  | some (i, event) ↦ happened i event r.world
]
after_intercept false go handle (taken r) = go r.world

-- The state before a datagram is handled: where it is from is noted.
unfoldable pub note_address : Address → World → World
note_address from w = record w { host = record w.host { received_address = from } }

-- What all rounds share: the callbacks, whether `event` is not NULL, enet_host_flush, the results of
-- malloc for each datagram and command, and the transport.
pub record Source : Type 0 where
  pub filters : Filters
  pub wanted : Bool
  pub flush : Site → Site
  pub mallocs : ℕ → ℕ → Allocation
  pub intercept : Option (World → List ℕ → Verdict)
  pub arrivals : ℕ → Arrival

-- The rounds from number `k` on, of which `n` are left.
unfoldable pub poll_from : Source → ℕ → ℕ → World → Polled
unfolding handle_incoming_commands after_datagram after_intercept note_address
poll_from x zero k w = failed w
poll_from x (suc n) k w = elim (x.arrivals k) [
  | failure ↦ failed w
  | silence ↦ quiet w
  | datagram from [] ↦ quiet (note_address from w)
  | datagram from (b ∷ bs) ↦
      let bytes = b ∷ bs in
      let go : World → Polled = λ w'. poll_from x n (suc k) w' in
      let handle : World → Polled = λ w'.
        after_datagram x.wanted go
          (handle_incoming_commands x.filters x.wanted x.flush (x.mallocs k) w' bytes) in
      elim x.intercept [
        | none ↦ handle (note_address from w)
        | some intercept ↦
            after_intercept x.wanted go handle (intercept (note_address from w) bytes)
      ]
]

-- enet_protocol_receive_incoming_commands
unfoldable pub poll : Source → World → Polled
unfolding poll_from
poll x w = poll_from x 256 0 w

-- A round on a datagram with no intercept callback.
poll_from-datagram :
    (x : Source) (n k : ℕ) (w : World) (from : Address) (b : ℕ) (bs : List ℕ)
    → x.intercept ≡ none
    → x.arrivals k ≡ datagram from (b ∷ bs)
    → poll_from x (suc n) k w
      ≡ after_datagram x.wanted
          (λ w'. poll_from x n (suc k) w')
          (handle_incoming_commands x.filters x.wanted x.flush
            (x.mallocs k)
            (note_address from w)
            (b ∷ bs))
unfolding poll_from
poll_from-datagram x n k w from b bs plain arrives = rw (poll_from, arrives, plain) refl

-- A datagram in the name of a peer that another host has sent, or that is of another session.
unfoldable pub IsForged : List Peer → Address → List ℕ → Type 0
IsForged peers from bytes =
    (n : ℕ) × (behind : List ℕ) × (p : Peer) × (get short bytes ≡ some (n, behind))
    × ((header_of n).peer_id ≢ maximum_peer_id)
    × (get_elem? peers (header_of n).peer_id ≡ some p)
    × Foreign from (header_of n).session_id p

-- The loop has reported nothing, and the peers and the packets are as they were.
unfoldable pub IsUnharmed : World → Polled → Type 0
IsUnharmed w (failed w') = (w'.peers ≡ w.peers) × (w'.packets ≡ w.packets)
IsUnharmed w (quiet w') = (w'.peers ≡ w.peers) × (w'.packets ≡ w.packets)
IsUnharmed w (happened i event w') = ⊥
IsUnharmed w broken = ⊥

module _ (x : Source) (plain : x.intercept ≡ none) (wanted : x.wanted ≡ true) (start : World)
    (forged : (k : ℕ) (from : Address) (bytes : List ℕ)
      → x.arrivals k ≡ datagram from bytes
      → IsForged start.peers from bytes) where
  poll_from-IsUnharmed :
      (n k : ℕ) (w : World)
      → w.peers ≡ start.peers
      → w.packets ≡ start.packets
      → IsUnharmed start (poll_from x n k w)
  unfolding IsForged IsUnharmed poll_from after_datagram note_address
  poll_from-IsUnharmed zero k w e e' = (e, e')
  poll_from-IsUnharmed (suc n) k w e e' =
      arrived (x.arrivals k) refl (λ w' u u'. poll_from-IsUnharmed n (suc k) w' u u')
    where
      arrived :
          (a : Arrival)
          → x.arrivals k ≡ a
          → ((w' : World)
              → w'.peers ≡ start.peers
              → w'.packets ≡ start.packets
              → IsUnharmed start (poll_from x n (suc k) w'))
          → IsUnharmed start (poll_from x (suc n) k w)
      arrived failure arrives next = rw (poll_from, arrives) (e, e')
      arrived silence arrives next = rw (poll_from, arrives) (e, e')
      arrived (datagram from []) arrives next = rw (poll_from, arrives) (e, e')
      arrived (datagram from (b ∷ bs)) arrives next =
          let bytes = b ∷ bs in
          let (number, behind, p, read, known, there, foreign) = forged k from bytes arrives in
          let go : World → Polled = λ w'. poll_from x n (suc k) w' in
          let here : get_elem? w.peers (header_of number).peer_id ≡ some p =
            ap (λ ps. get_elem? ps (header_of number).peer_id) e ∙ there in
          let ignored =
            handle_incoming_commands-Foreign x.filters x.wanted x.flush (x.mallocs k)
              (note_address from w) bytes behind number p read known here foreign in
          subst (IsUnharmed start)
            (sym (
              poll_from-datagram x n k w from b bs plain arrives
              ∙ ap (after_datagram x.wanted go) ignored
              ∙ ap
                  (λ b. after_datagram b go (
                    received
                      (record { current = none; reported = none; world = note_address from w })))
                  wanted))
            (next (note_address from w) e e')

  -- However many datagrams of other hosts, or of other sessions, come in the names of peers: a call of
  -- enet_protocol_receive_incoming_commands with an event and no intercept callback reports nothing,
  -- reads nothing out of bounds, and leaves all peers and packets as they were.
  pub poll-IsUnharmed : IsUnharmed start (poll x start)
  unfolding poll
  poll-IsUnharmed = poll_from-IsUnharmed 256 0 start refl refl
