-- ===== src/Protocol/Receive/Ends.antt =====
-- toxtun/protocol.c, enet_protocol_handle_incoming_commands: the loop comes to its end.
use toxsh.Prelude.{
  ℕ, zero, suc, ◌≤◌, ◌≢◌, inl, inr, Bool, true, false, ◌==◌, List, Option, none, some, length,
  if◌then◌else◌, Option-cases, get_elem?, arith,
}
use toxsh.Wire.{
  Protocol, Body, acknowledge, connect, verify_connect, disconnect, ping, send_reliable,
  send_unreliable, send_unsequenced, send_fragment, bandwidth_limit, throttle_configure,
}
use toxsh.Wire.Command
use toxsh.Wire.Layout.{decode}
use toxsh.Wire.Layout.Extent.{decode-shorter}
use toxsh.State.{Site}
use toxsh.World.{site_at}
use toxsh.Protocol.Result.{Handled, done, error, fault}
use toxsh.Protocol.Control.{Outcome}
use toxsh.Protocol.Handshake.{Accepted, accepted, refused, broken}
use toxsh.Protocol.Receive.{
  Allocation, Reading, Step, next, stop, faulted, Context, after_handled, after_test, after_outcome,
  after_optional, after_connect, handle_body, handle_stranger, answer_command, handle_command,
  Ended, ended, crashed, unfinished, read_commands,
}
use toxsh.Protocol.Receive.Leaves.{
  Leaves, choose-Leaves, handle_send_fragment-Leaves, handle_send_unreliable_fragment-Leaves,
  handle_send_reliable-Leaves, handle_send_unreliable-Leaves, handle_send_unsequenced-Leaves,
}

-- A step that goes on leaves at most `n` bytes.
unfoldable Keeps : ℕ → Step → Type 0
Keeps n (next rest r) = length rest ≤ n
Keeps n (stop r) = Unit
Keeps n faulted = Unit

after_handled-Keeps :
    (n i : ℕ) (r : Reading) (h : Handled) → Leaves n h → Keeps n (after_handled i r h)
unfolding Keeps Leaves after_handled
after_handled-Keeps n i r (done rest s) l = l
after_handled-Keeps n i r (error rest s) l = tt
after_handled-Keeps n i r fault l = tt

after_test-Keeps :
    (i : ℕ) (r : Reading) (rest : List ℕ) (o : Bool × Site)
    → Keeps (length rest) (after_test i r rest o)
unfolding Keeps after_test
after_test-Keeps i r rest (true, s) = omega arith
after_test-Keeps i r rest (false, s) = tt

choose-Keeps :
    (n : ℕ) (b : Bool) (h h' : Step) → Keeps n h → Keeps n h' → Keeps n (if b then h else h')
choose-Keeps n true h h' l l' = l
choose-Keeps n false h h' l l' = l'

after_outcome-Keeps :
    (i : ℕ) (r : Reading) (rest : List ℕ) (o : Outcome)
    → Keeps (length rest) (after_outcome i r rest o)
unfolding Keeps after_outcome
after_outcome-Keeps i r rest o = choose-Keeps (length rest) o.is_done _ _ (omega arith) tt

after_optional-Keeps :
    (i : ℕ) (r : Reading) (rest : List ℕ) (o : Option Outcome)
    → Keeps (length rest) (after_optional i r rest o)
unfolding Keeps after_optional
after_optional-Keeps i r rest none = tt
after_optional-Keeps i r rest (some o) = after_outcome-Keeps i r rest o

after_connect-Keeps :
    (r : Reading) (rest : List ℕ) (a : Accepted) → Keeps (length rest) (after_connect r rest a)
unfolding Keeps after_connect
after_connect-Keeps r rest refused = tt
after_connect-Keeps r rest (accepted i s) = omega arith
after_connect-Keeps r rest broken = tt

handle_body-Keeps :
    (x : Context) (a : Allocation) (c : Protocol) (b : Body) (rest : List ℕ) (i : ℕ) (s : Site)
    (r : Reading)
    → Keeps (length rest) (handle_body x a c b rest i s r)
unfolding handle_body Keeps
handle_body-Keeps x a c (acknowledge number sent) rest i s r = after_optional-Keeps i r rest _
handle_body-Keeps x a c (connect h data_) rest i s r = tt
handle_body-Keeps x a c (verify_connect h) rest i s r = after_outcome-Keeps i r rest _
handle_body-Keeps x a c (disconnect data_) rest i s r = omega arith
handle_body-Keeps x a c ping rest i s r = after_test-Keeps i r rest _
handle_body-Keeps x a c (send_reliable n) rest i s r =
    after_handled-Keeps _ i r _ (handle_send_reliable-Leaves a.queue c n rest s)
handle_body-Keeps x a c (send_unreliable number n) rest i s r =
    after_handled-Keeps _ i r _ (handle_send_unreliable-Leaves a.queue c n rest s)
handle_body-Keeps x a c (send_unsequenced group n) rest i s r =
    after_handled-Keeps _ i r _ (handle_send_unsequenced-Leaves a.queue c group n rest s)
handle_body-Keeps x a c (send_fragment f) rest i s r = after_handled-Keeps _ i r _ (
    choose-Leaves (length rest) (Command.number c.command == 8) _ _
      (handle_send_fragment-Leaves a.queue c f rest s)
      (handle_send_unreliable_fragment-Leaves a.queue c f rest s))
handle_body-Keeps x a c (bandwidth_limit incoming outgoing) rest i s r = after_test-Keeps i r rest _
handle_body-Keeps x a c (throttle_configure interval acceleration deceleration) rest i s r =
    after_test-Keeps i r rest _

handle_stranger-Keeps :
    (a : Allocation) (b : Body) (rest : List ℕ) (r : Reading)
    → Keeps (length rest) (handle_stranger a b rest r)
unfolding handle_stranger Keeps
handle_stranger-Keeps a (connect h data_) rest r = after_connect-Keeps r rest _
handle_stranger-Keeps a _ rest r = tt

option-Keeps {ℓ} :
    {A : Type ℓ} (n : ℕ) (o : Option A) (z : Step) (f : A → Step)
    → Keeps n z
    → ((a : A) → Keeps n (f a))
    → Keeps n (elim o [ none ↦ z | some a ↦ f a ])
option-Keeps n none z f h l = h
option-Keeps n (some a) z f h l = l a

answer_command-Keeps :
    (x : Context) (a : Allocation) (c : Protocol) (n : ℕ) (step : Step)
    → Keeps n step
    → Keeps n (answer_command x a c step)
unfolding answer_command Keeps
answer_command-Keeps x a c n (next rest r) h = option-Keeps n r.current (next rest r) _ h (λ i.
    option-Keeps n (get_elem? r.world.peers i) faulted _ tt (λ p.
      choose-Keeps n (Command.is_acknowledged c.command) _ _
        (option-Keeps n x.sent_time (stop r) _ tt (λ sent. h)) h))
answer_command-Keeps x a c n (stop r) h = tt
answer_command-Keeps x a c n faulted h = tt

-- A round takes no bytes back.
handle_command-Keeps :
    (x : Context) (a : Allocation) (c : Protocol) (rest : List ℕ) (r : Reading)
    → Keeps (length rest) (handle_command x a c rest r)
unfolding handle_command Keeps
handle_command-Keeps x a c rest r = answer_command-Keeps x a c (length rest) _ (
    option-Keeps (length rest) r.current _ _ (handle_stranger-Keeps a c.body rest r) (λ i.
      option-Keeps (length rest) (site_at r.world i) faulted _ tt
        (λ s. handle_body-Keeps x a c c.body rest i s r)))

-- The loop after a round: it goes on with `go`.
after_step-ends :
    (n : ℕ) (go : List ℕ → Reading → Ended) (step : Step)
    → Keeps n step
    → ((rest : List ℕ) (r : Reading) → length rest ≤ n → go rest r ≢ unfinished)
    → (elim step [ next rest r ↦ go rest r | stop r ↦ ended r | faulted ↦ crashed ]) ≢ unfinished
unfolding Keeps
after_step-ends n go (next rest r) h continues = continues rest r h
after_step-ends n go (stop r) h continues = λ e. ground arith
after_step-ends n go faulted h continues = λ e. ground arith

-- The loop over the commands of a datagram comes to its end, whatever the bytes, the state of the peers
-- and the results of malloc are: as many rounds as there are bytes are enough.
pub read_commands-ends :
    (x : Context) (mallocs : ℕ → Allocation) (fuel k : ℕ) (bytes : List ℕ) (r : Reading)
    → length bytes ≤ fuel
    → read_commands x mallocs fuel k bytes r ≢ unfinished
unfolding read_commands
read_commands-ends x mallocs zero k bytes r h = elim (Option-cases (decode bytes)) [
  | inl e ↦ rw (e, read_commands) (λ e'. ground arith)
  | inr ((c, rest), e) ↦ absurd (omega (arith, decode-shorter bytes c rest e))
]
read_commands-ends x mallocs (suc fuel) k bytes r h = elim (Option-cases (decode bytes)) [
  | inl e ↦ rw (e, read_commands) (λ e'. ground arith)
  | inr ((c, rest), e) ↦
      rw (e, read_commands)
        (after_step-ends (length rest) (read_commands x mallocs fuel (suc k)) _
          (handle_command-Keeps x (mallocs k) c rest r)
          (λ rest' r' l.
            read_commands-ends x mallocs fuel (suc k) rest' r'
              (omega (arith, decode-shorter bytes c rest e))))
]
