-- ===== src/Protocol/Receive/Unknown.antt =====
-- toxtun/protocol.c, enet_protocol_handle_incoming_commands: a datagram of no peer.
use toxsh.Prelude.{
  ℕ, suc, zero, ◌≡◌, ◌≢◌, ◌∙◌, refl, Bool, true, ◌==◌, List, Option, none, some, get_elem?,
  get_elem?-set_other, length, drop, arith,
}
use toxsh.Wire.{Protocol, Body, connect, maximum_peer_id}
use toxsh.Wire.Layout.{decode, short, get}
use toxsh.State.{Peer, Site, disconnected}
use toxsh.World.{World}
use toxsh.Protocol.Handshake.{Accepted, accepted, refused, broken}
use toxsh.Protocol.Receive.{
  Allocation, Reading, Step, next, stop, faulted, Context, Ended, ended, crashed, unfinished,
  with_site, after_connect, handle_stranger, answer_command, handle_command, read_commands,
}
use toxsh.Protocol.Receive.Header.{
  Filters, context_of, header_of, header_size, handle_incoming_commands, ignore, received,
  read_from, after_loop, filter, receive_strange, Header,
}
use toxsh.Protocol.Receive.Isolation.{
  Untouched, Held, HeldAtEnd, answer_command-Held, read_commands-Held,
}
use toxsh.Protocol.Receive.Apart.{IsLeft, filtered-IsLeft, received-IsLeft}
use toxsh.Protocol.Receive.Strangers.{TakesFree, handle_connect-TakesFree}

same_state :
    (ps : List Peer) (i j : ℕ) (q p : Peer)
    → i ≡ j
    → get_elem? ps i ≡ some q
    → get_elem? ps j ≡ some p
    → q.state ≡ disconnected
    → p.state ≡ disconnected
same_state ps i j q p same e e' unused = cc

-- Peer `j` is `p`, which is in use.
module _ (j : ℕ) (p : Peer) (used : p.state ≢ disconnected) where
  -- A step, or the end, of a datagram that had no peer before: by now it may have one, but not peer `j`.
  abbrev Spared : Step → Type 0
  Spared (next rest r) = (i : ℕ) × (apart : i ≢ j) × Untouched i j apart (some p) r
  Spared (stop r) = get_elem? r.world.peers j ≡ some p
  Spared faulted = Unit

  abbrev SparedAtEnd : Ended → Type 0
  SparedAtEnd (ended r) = get_elem? r.world.peers j ≡ some p
  SparedAtEnd crashed = Unit
  SparedAtEnd unfinished = Unit

  after_connect-Spared :
      (r : Reading) (rest : List ℕ) (a : Accepted)
      → get_elem? r.world.peers j ≡ some p
      → TakesFree r.world.peers a
      → Spared (after_connect r rest a)
  unfolding after_connect TakesFree with_site
  after_connect-Spared r rest refused e h = e
  after_connect-Spared r rest (accepted i s) e (q, there, unused) =
      let apart : i ≢ j = λ same. used (same_state r.world.peers i j q p same there e unused) in
      (i, apart, (refl, get_elem?-set_other r.world.peers i j s.peer apart ∙ e))
  after_connect-Spared r rest broken e h = tt

  handle_stranger-Spared :
      (a : Allocation) (b : Body) (rest : List ℕ) (r : Reading)
      → get_elem? r.world.peers j ≡ some p
      → Spared (handle_stranger a b rest r)
  unfolding handle_stranger
  handle_stranger-Spared a (connect h data_) rest r e = after_connect-Spared r rest _ e (
      handle_connect-TakesFree a.channels a.command h data_ r.world.host r.world.peers
        r.world.packets)
  handle_stranger-Spared a _ rest r e = e

  Held-Spared : (i : ℕ) (apart : i ≢ j) (step : Step) → Held i j apart (some p) step → Spared step
  Held-Spared i apart (next rest r) u = (i, apart, u)
  Held-Spared i apart (stop r) u = u.1
  Held-Spared i apart faulted u = tt

  answer_command-Spared :
      (x : Context) (a : Allocation) (c : Protocol) (step : Step)
      → Spared step
      → Spared (answer_command x a c step)
  unfolding answer_command
  answer_command-Spared x a c (next rest r) (i, apart, u) =
      Held-Spared i apart _ (answer_command-Held i j apart (some p) x a c (next rest r) u)
  answer_command-Spared x a c (stop r) h = h
  answer_command-Spared x a c faulted h = tt

  HeldAtEnd-Spared :
      (i : ℕ) (apart : i ≢ j) (e : Ended) → HeldAtEnd i j apart (some p) e → SparedAtEnd e
  HeldAtEnd-Spared i apart (ended r) u = u.1
  HeldAtEnd-Spared i apart crashed u = tt
  HeldAtEnd-Spared i apart unfinished u = tt

  after_step-Spared :
      (x : Context) (mallocs : ℕ → Allocation) (fuel k : ℕ) (step : Step)
      → Spared step
      → SparedAtEnd (elim step [
        | next rest r ↦ read_commands x mallocs fuel k rest r
        | stop r ↦ ended r
        | faulted ↦ crashed
      ])
  after_step-Spared x mallocs fuel k (next rest r) (i, apart, u) =
      HeldAtEnd-Spared i apart _ (read_commands-Held i j apart (some p) x mallocs fuel k rest r u)
  after_step-Spared x mallocs fuel k (stop r) h = h
  after_step-Spared x mallocs fuel k faulted h = tt

  option-Spared {ℓ} :
      {A : Type ℓ} (o : Option A) (z : Ended) (f : A → Ended)
      → SparedAtEnd z
      → ((a : A) → SparedAtEnd (f a))
      → SparedAtEnd (elim o [ none ↦ z | some a ↦ f a ])
  option-Spared none z f h h' = h
  option-Spared (some a) z f h h' = h' a

  -- The loop begins with no peer.
  read_commands-Spared :
      (x : Context) (mallocs : ℕ → Allocation) (fuel k : ℕ) (bytes : List ℕ) (w : World)
      → get_elem? w.peers j ≡ some p
      → SparedAtEnd (
          read_commands x mallocs fuel k bytes
            (record { current = none; reported = none; world = w }))
  unfolding read_commands handle_command
  read_commands-Spared x mallocs zero k bytes w e = option-Spared (decode bytes) _ _ e (λ d. tt)
  read_commands-Spared x mallocs (suc fuel) k bytes w e = option-Spared (decode bytes) _ _ e (λ d.
      after_step-Spared x mallocs fuel (suc k) _ (
        answer_command-Spared x (mallocs k) d.0 _
          (handle_stranger-Spared (mallocs k) d.0.body d.1 _ e)))

  after_loop-Spared : (e : Ended) → SparedAtEnd e → IsLeft j (some p) (after_loop e)
  unfolding after_loop IsLeft
  after_loop-Spared (ended r) h = h
  after_loop-Spared crashed h = tt
  after_loop-Spared unfinished h = tt

  receive_strange-Spared :
      (f : Filters) (wanted : Bool) (flush : Site → Site) (mallocs : ℕ → Allocation) (h : Header)
      (w : World) (bytes : List ℕ)
      → get_elem? w.peers j ≡ some p
      → IsLeft j (some p) (receive_strange f wanted flush mallocs h w bytes)
  unfolding receive_strange IsLeft ignore read_from
  receive_strange-Spared f wanted flush mallocs h w bytes e =
      filtered-IsLeft j (some p) (filter f h 0 bytes) _ _ _ e tt (λ bytes'. after_loop-Spared _ (
        read_commands-Spared (context_of wanted flush h bytes') mallocs
          (length (drop (header_size f h) bytes')) 0 (drop (header_size f h) bytes') w e))

-- A datagram of no peer, of which anyone can send any number, leaves every peer that is in use as it is.
pub handle_incoming_commands-spares :
    (f : Filters) (wanted : Bool) (flush : Site → Site) (mallocs : ℕ → Allocation) (w : World)
    (bytes behind : List ℕ) (n j : ℕ) (p : Peer) (r : Reading)
    → get short bytes ≡ some (n, behind)
    → (header_of n).peer_id ≡ maximum_peer_id
    → get_elem? w.peers j ≡ some p
    → p.state ≢ disconnected
    → handle_incoming_commands f wanted flush mallocs w bytes ≡ received r
    → get_elem? r.world.peers j ≡ some p
unfolding handle_incoming_commands
handle_incoming_commands-spares f wanted flush mallocs w bytes behind n j p r e unknown there used
      result =
    let named : ((header_of n).peer_id == 4095) ≡ true = ground arith in
    received-IsLeft j (some p) _ r
      (rw (handle_incoming_commands, e, named)
        (receive_strange-Spared j p used f wanted flush mallocs (header_of n) w bytes there))
      result
