-- ===== src/Protocol/Receive/Isolation.antt =====
-- toxtun/protocol.c, enet_protocol_handle_incoming_commands: a datagram concerns one peer.
use toxsh.Prelude.{
  ℕ, zero, suc, ◌≡◌, ◌≢◌, ◌∙◌, refl, sym, subst, Bool, true, false, List, Option, none, some,
  get_elem?, get_elem?-set_other, if◌then◌else◌, arith,
}
use toxsh.Wire.{
  Protocol, Body, acknowledge, connect, verify_connect, disconnect, ping, send_reliable,
  send_unreliable, send_unsequenced, send_fragment, bandwidth_limit, throttle_configure,
}
use toxsh.Wire.Command
use toxsh.Wire.Layout.{decode}
use toxsh.State.{Peer, Site}
use toxsh.World.{site_at}
use toxsh.Protocol.Result.{Handled, done, error, fault}
use toxsh.Protocol.Control.{
  handle_disconnect, Outcome, Event, nothing, connect_event, disconnect_event,
}
use toxsh.Protocol.Receive.{
  Allocation, Reading, Step, next, stop, faulted, Context, with_site, with_event, after_handled,
  after_test, after_outcome, after_optional, handle_body, answer_command, queue_answer,
  handle_command, Ended, ended, crashed, unfinished, read_commands,
}

-- Peer `j` is not peer `i`, and was `old`.
module _ (i j : ℕ) (apart : i ≢ j) (old : Option Peer) where
  -- The datagram is peer `i`'s, and peer `j` is as it was.
  abbrev pub Untouched : Reading → Type 0
  Untouched r = (r.current ≡ some i) × (get_elem? r.world.peers j ≡ old)

  abbrev pub Held : Step → Type 0
  Held (next rest r) = Untouched r
  Held (stop r) = Untouched r
  Held faulted = Unit

  abbrev pub HeldAtEnd : Ended → Type 0
  HeldAtEnd (ended r) = Untouched r
  HeldAtEnd crashed = Unit
  HeldAtEnd unfinished = Unit

  pub with_site-Untouched : (s : Site) (r : Reading) → Untouched r → Untouched (with_site i s r)
  unfolding with_site
  with_site-Untouched s r h = (h.0, get_elem?-set_other r.world.peers i j s.peer apart ∙ h.1)

  with_event-Untouched : (e : Event) (r : Reading) → Untouched r → Untouched (with_event i e r)
  unfolding with_event
  with_event-Untouched nothing r h = h
  with_event-Untouched (connect_event n) r h = h
  with_event-Untouched (disconnect_event n) r h = h

  after_handled-Held : (r : Reading) (h : Handled) → Untouched r → Held (after_handled i r h)
  unfolding after_handled
  after_handled-Held r (done rest s) u = with_site-Untouched s r u
  after_handled-Held r (error rest s) u = with_site-Untouched s r u
  after_handled-Held r fault u = tt

  after_test-Held :
      (r : Reading) (rest : List ℕ) (o : Bool × Site) → Untouched r → Held (after_test i r rest o)
  unfolding after_test
  after_test-Held r rest (true, s) u = with_site-Untouched s r u
  after_test-Held r rest (false, s) u = with_site-Untouched s r u

  choose-Held : (b : Bool) (x y : Step) → Held x → Held y → Held (if b then x else y)
  choose-Held true x y h h' = h
  choose-Held false x y h h' = h'

  after_outcome-Held :
      (r : Reading) (rest : List ℕ) (o : Outcome) → Untouched r → Held (after_outcome i r rest o)
  unfolding after_outcome
  after_outcome-Held r rest o u =
      let u' = with_event-Untouched o.event _ (with_site-Untouched o.site r u) in
      choose-Held o.is_done _ _ u' u'

  after_optional-Held :
      (r : Reading) (rest : List ℕ) (o : Option Outcome)
      → Untouched r
      → Held (after_optional i r rest o)
  unfolding after_optional
  after_optional-Held r rest none u = tt
  after_optional-Held r rest (some o) u = after_outcome-Held r rest o u

  handle_body-Held :
      (x : Context) (a : Allocation) (c : Protocol) (b : Body) (rest : List ℕ) (s : Site)
      (r : Reading)
      → Untouched r
      → Held (handle_body x a c b rest i s r)
  unfolding handle_body
  handle_body-Held x a c (acknowledge number sent) rest s r u = after_optional-Held r rest _ u
  handle_body-Held x a c (connect h data_) rest s r u = u
  handle_body-Held x a c (verify_connect h) rest s r u = after_outcome-Held r rest _ u
  handle_body-Held x a c (disconnect data_) rest s r u =
      with_site-Untouched (handle_disconnect c data_ s) r u
  handle_body-Held x a c ping rest s r u = after_test-Held r rest _ u
  handle_body-Held x a c (send_reliable n) rest s r u = after_handled-Held r _ u
  handle_body-Held x a c (send_unreliable number n) rest s r u = after_handled-Held r _ u
  handle_body-Held x a c (send_unsequenced group n) rest s r u = after_handled-Held r _ u
  handle_body-Held x a c (send_fragment f) rest s r u = after_handled-Held r _ u
  handle_body-Held x a c (bandwidth_limit incoming outgoing) rest s r u = after_test-Held r rest _ u
  handle_body-Held x a c (throttle_configure interval acceleration deceleration) rest s r u =
      after_test-Held r rest _ u

  choose-Untouched :
      (b : Bool) (x y : Reading) → Untouched x → Untouched y → Untouched (if b then x else y)
  choose-Untouched true x y h h' = h
  choose-Untouched false x y h h' = h'

  with_site-same :
      (k : ℕ) (s : Site) (r : Reading) → k ≡ i → Untouched r → Untouched (with_site k s r)
  with_site-same k s r e u =
      subst (λ n. Untouched (with_site n s r)) (sym e) (with_site-Untouched s r u)

  queue_answer-Untouched :
      (a : Allocation) (c : Protocol) (sent k : ℕ) (p : Peer) (r : Reading)
      → k ≡ i
      → Untouched r
      → Untouched (queue_answer a c sent k p r)
  unfolding queue_answer
  queue_answer-Untouched a c sent k p r e u = search (choose-Untouched, with_site-same)

  option-Held {ℓ} :
      {A : Type ℓ} (o : Option A) (z : Step) (f : A → Step)
      → (o ≡ none → Held z)
      → ((a : A) → o ≡ some a → Held (f a))
      → Held (elim o [ none ↦ z | some a ↦ f a ])
  option-Held none z f h h' = h refl
  option-Held (some a) z f h h' = h' a refl

  index_of : (o : Option ℕ) (k : ℕ) → o ≡ some i → o ≡ some k → k ≡ i
  index_of o k e e' = cc

  not_nowhere : (o : Option ℕ) → o ≡ some i → o ≢ none
  not_nowhere o e e' = ground arith

  pub answer_command-Held :
      (x : Context) (a : Allocation) (c : Protocol) (step : Step)
      → Held step
      → Held (answer_command x a c step)
  unfolding answer_command
  answer_command-Held x a c (next rest r) u =
      option-Held r.current (next rest r) _ (λ e. u)
        (λ k e.
          option-Held (get_elem? r.world.peers k) faulted _ (λ e. tt)
            (λ p e'.
              choose-Held (Command.is_acknowledged c.command) _ _
                (option-Held x.sent_time (stop r) _ (λ e. u)
                  (λ sent e''.
                    queue_answer-Untouched a c sent k p r (index_of r.current k u.0 e) u))
                u))
  answer_command-Held x a c (stop r) u = u
  answer_command-Held x a c faulted u = tt

  handle_command-Held :
      (x : Context) (a : Allocation) (c : Protocol) (rest : List ℕ) (r : Reading)
      → Untouched r
      → Held (handle_command x a c rest r)
  unfolding handle_command
  handle_command-Held x a c rest r u = answer_command-Held x a c _ (
      option-Held r.current _ _ (λ e. absurd (not_nowhere r.current u.0 e))
        (λ k e.
          option-Held (site_at r.world k) faulted _ (λ e'. tt)
            (λ s e'.
              subst (λ n. Held (handle_body x a c c.body rest n s r))
                (sym (index_of r.current k u.0 e)) (handle_body-Held x a c c.body rest s r u))))

  pub after_step-Held :
      (go : List ℕ → Reading → Ended) (step : Step)
      → Held step
      → ((rest : List ℕ) (r : Reading) → Untouched r → HeldAtEnd (go rest r))
      → HeldAtEnd (elim step [ next rest r ↦ go rest r | stop r ↦ ended r | faulted ↦ crashed ])
  after_step-Held go (next rest r) u continues = continues rest r u
  after_step-Held go (stop r) u continues = u
  after_step-Held go faulted u continues = tt

  pub option-HeldAtEnd {ℓ} :
      {A : Type ℓ} (o : Option A) (z : Ended) (f : A → Ended)
      → HeldAtEnd z
      → ((a : A) → HeldAtEnd (f a))
      → HeldAtEnd (elim o [ none ↦ z | some a ↦ f a ])
  option-HeldAtEnd none z f h h' = h
  option-HeldAtEnd (some a) z f h h' = h' a

  pub read_commands-Held :
      (x : Context) (mallocs : ℕ → Allocation) (fuel k : ℕ) (bytes : List ℕ) (r : Reading)
      → Untouched r
      → HeldAtEnd (read_commands x mallocs fuel k bytes r)
  unfolding read_commands
  read_commands-Held x mallocs zero k bytes r u =
      option-HeldAtEnd (decode bytes) (ended r) _ u (λ d. tt)
  read_commands-Held x mallocs (suc fuel) k bytes r u =
      option-HeldAtEnd (decode bytes) (ended r) _ u (λ d.
        after_step-Held (read_commands x mallocs fuel (suc k)) _
          (handle_command-Held x (mallocs k) d.0 d.1 r u)
          (λ rest r' u'. read_commands-Held x mallocs fuel (suc k) rest r' u'))
