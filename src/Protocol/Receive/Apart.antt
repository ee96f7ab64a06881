-- ===== src/Protocol/Receive/Apart.antt =====
-- toxtun/protocol.c, enet_protocol_handle_incoming_commands: the peers that a datagram leaves alone.
use toxsh.Prelude.{
  ℕ, ◌≡◌, ◌≢◌, ◌∙◌, refl, subst, Bool, true, false, ◌==◌, List, Option, none, some, get_elem?,
  get_elem?-set_other, if◌then◌else◌, length, drop, arith,
}
use toxsh.Wire.{maximum_peer_id}
use toxsh.Wire.Layout.{short, get}
use toxsh.State.{Peer, Site}
use toxsh.World.{World}
use toxsh.Protocol.Receive.{Allocation, Reading, Ended, ended, crashed, unfinished}
use toxsh.Protocol.Receive.Header.{
  Filters, Header, context_of, header_of, header_size, is_from, handle_incoming_commands, ignore,
  Received, received, endless, out_of_bounds, read_from, after_loop, filter, passed_over, readable,
  overread, Filtered, receive_known,
}
use toxsh.Protocol.Receive.Isolation.{HeldAtEnd, read_commands-Held}

-- Peer `j` is as it was.
module _ (j : ℕ) (old : Option Peer) where
  unfoldable pub IsLeft : Received → Type 0
  IsLeft (received r) = get_elem? r.world.peers j ≡ old
  IsLeft out_of_bounds = Unit
  IsLeft endless = Unit

  after_loop-IsLeft :
      (i : ℕ) (apart : i ≢ j) (e : Ended) → HeldAtEnd i j apart old e → IsLeft (after_loop e)
  unfolding IsLeft after_loop
  after_loop-IsLeft i apart (ended r) h = h.1
  after_loop-IsLeft i apart crashed h = tt
  after_loop-IsLeft i apart unfinished h = tt

  read_from-IsLeft :
      (f : Filters) (wanted : Bool) (flush : Site → Site) (mallocs : ℕ → Allocation) (h : Header)
      (i : ℕ) (w : World) (bytes : List ℕ)
      → i ≢ j
      → get_elem? w.peers j ≡ old
      → IsLeft (read_from f wanted flush mallocs h (some i) w bytes)
  unfolding read_from
  read_from-IsLeft f wanted flush mallocs h i w bytes apart e = after_loop-IsLeft i apart _ (
      read_commands-Held i j apart old (context_of wanted flush h bytes) mallocs
        (length (drop (header_size f h) bytes)) 0 (drop (header_size f h) bytes)
        (record { current = some i; reported = none; world = w }) (refl, e))

  pub choose-IsLeft :
      (b : Bool) (x y : Received) → IsLeft x → IsLeft y → IsLeft (if b then x else y)
  choose-IsLeft true x y h h' = h
  choose-IsLeft false x y h h' = h'

  pub filtered-IsLeft :
      (o : Filtered) (z z' : Received) (f : List ℕ → Received)
      → IsLeft z
      → IsLeft z'
      → ((bytes : List ℕ) → IsLeft (f bytes))
      → IsLeft (elim o [ passed_over ↦ z | overread ↦ z' | readable bytes ↦ f bytes ])
  filtered-IsLeft passed_over z z' f h h' h'' = h
  filtered-IsLeft overread z z' f h h' h'' = h'
  filtered-IsLeft (readable bytes) z z' f h h' h'' = h'' bytes

  receive_known-IsLeft :
      (f : Filters) (wanted : Bool) (flush : Site → Site) (mallocs : ℕ → Allocation) (h : Header)
      (p : Peer) (w : World) (bytes : List ℕ)
      → h.peer_id ≢ j
      → get_elem? w.peers j ≡ old
      → IsLeft (receive_known f wanted flush mallocs h p w bytes)
  unfolding receive_known IsLeft ignore
  receive_known-IsLeft f wanted flush mallocs h p w bytes apart e =
      filtered-IsLeft (filter f h p.session.connect_id bytes) _ _ _ e tt (λ bytes'.
        read_from-IsLeft f wanted flush mallocs h h.peer_id _ bytes' apart
          (get_elem?-set_other w.peers h.peer_id j _ apart ∙ e))

option-IsLeft :
    (j : ℕ) (old : Option Peer) (o : Option Peer) (z : Received) (f : Peer → Received)
    → IsLeft j old z
    → ((p : Peer) → IsLeft j old (f p))
    → IsLeft j old (elim o [ none ↦ z | some p ↦ f p ])
option-IsLeft j old none z f h h' = h
option-IsLeft j old (some p) z f h h' = h' p

known-IsLeft :
    (f : Filters) (wanted : Bool) (flush : Site → Site) (mallocs : ℕ → Allocation) (h : Header)
    (w : World) (bytes : List ℕ) (j : ℕ)
    → h.peer_id ≢ j
    → IsLeft j (get_elem? w.peers j) (elim (get_elem? w.peers h.peer_id) [
      | none ↦ ignore w
      | some p ↦
          if is_from w.host.received_address h.session_id p
          then receive_known f wanted flush mallocs h p w bytes
          else ignore w
    ])
unfolding IsLeft ignore
known-IsLeft f wanted flush mallocs h w bytes j apart =
    option-IsLeft j (get_elem? w.peers j) (get_elem? w.peers h.peer_id) _ _ refl (λ p.
      choose-IsLeft j (get_elem? w.peers j) (is_from w.host.received_address h.session_id p) _ _
        (receive_known-IsLeft j _ f wanted flush mallocs h p w bytes apart refl) refl)

pub received-IsLeft :
    (j : ℕ) (old : Option Peer) (o : Received) (r : Reading)
    → IsLeft j old o
    → o ≡ received r
    → get_elem? r.world.peers j ≡ old
unfolding IsLeft
received-IsLeft j old o r h e = subst (IsLeft j old) e h

-- A datagram in the name of one peer leaves every other peer of the host as it is.
pub handle_incoming_commands-apart :
    (f : Filters) (wanted : Bool) (flush : Site → Site) (mallocs : ℕ → Allocation) (w : World)
    (bytes behind : List ℕ) (n j : ℕ) (r : Reading)
    → get short bytes ≡ some (n, behind)
    → (header_of n).peer_id ≢ maximum_peer_id
    → (header_of n).peer_id ≢ j
    → handle_incoming_commands f wanted flush mallocs w bytes ≡ received r
    → get_elem? r.world.peers j ≡ get_elem? w.peers j
unfolding handle_incoming_commands IsLeft
handle_incoming_commands-apart f wanted flush mallocs w bytes behind n j r e known apart result =
    let named : ((header_of n).peer_id == 4095) ≡ false = ground arith in
    received-IsLeft j (get_elem? w.peers j) _ r
      (rw (handle_incoming_commands, e, named)
        (known-IsLeft f wanted flush mallocs (header_of n) w bytes j apart))
      result
