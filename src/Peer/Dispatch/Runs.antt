-- ===== src/Peer/Dispatch/Runs.antt =====
-- The loop of the reliable dispatch, under absolute message numbers.
use mathlib.Core.List.{append-nil}
use toxsh.Prelude.{
  subst, sym, ℕ, suc, ◌+◌, ◌%◌, ◌≤◌, ◌<◌, ◌≡◌, refl, inl, inr, true, false, List, [], ◌∷◌, arith,
  Bool-cases, length, ◌≢◌, ap, ◌∙◌, ◌++◌,
}
use toxsh.Memory.{IncomingCommand}
use toxsh.State.{Channel}
use toxsh.Peer.Dispatch.{
  Run, Dispatched, reliable_run, is_ready, last_number, after_run, dispatch_unreliable,
  dispatch_reliable, unreliable_walk,
}
use toxsh.Peer.Dispatch.Order.{reliable_run-append}
use toxsh.Peer.Messages.{reach, IsMessage, Holds, Segment, Holds-mono}

module _ (body : ℕ → List ℕ) where
  -- What a run over a held list does: it hands over the messages up to some `b`.
  pub record RunsTo (a : ℕ) (r : Run) : Type 0 where
    pub b : ℕ
    pub incoming : r.incoming ≡ b % 65536
    pub taken : Segment body a r.taken b
    pub held : Holds body b (suc b) r.rest
    pub grows : a ≤ b

  module _ (a n : ℕ) (c : IncomingCommand) (is : IsMessage body n c) (an : a < n)
      (near : n < a + reach) where
    ready-next : is_ready (a % 65536) c ≡ true → n ≡ suc a
    unfolding is_ready
    ready-next h = let e = is.numbered in ground arith

    not-next : is_ready (a % 65536) c ≡ false → n ≢ suc a
    unfolding is_ready
    not-next h = let e = is.numbered in let f = is.complete in ground arith

    last_number-eq : last_number c ≡ n % 65536
    unfolding last_number
    last_number-eq = let e = is.numbered in let f = is.unfragmented in ground arith

  step :
      {a : ℕ} (n : ℕ) (c : IncomingCommand) (cs : List IncomingCommand) {r : Run}
      → n ≡ suc a
      → IsMessage body n c
      → RunsTo n r
      → RunsTo a (record r { taken = c ∷ r.taken })
  step n c cs e is runs = record {
    b = runs.b;
    incoming = runs.incoming;
    taken = rw (← e) (is, runs.taken);
    held = runs.held;
    grows = let g = runs.grows in omega arith;
  }

  pub reliable_run-RunsTo :
      (a : ℕ) (cs : List IncomingCommand)
      → Holds body a a cs
      → RunsTo a (reliable_run (a % 65536) cs)
  unfolding reliable_run
  reliable_run-RunsTo a [] h = record {
    b = a;
    incoming = refl;
    taken = refl;
    held = tt;
    grows = omega arith;
  }
  reliable_run-RunsTo a (c ∷ cs) (n, an, near, is, rest) =
      elim (Bool-cases (is_ready (a % 65536) c)) [
        | inr waits ↦ rw waits (record {
          b = a;
          incoming = refl;
          taken = refl;
          held = let ne = not-next a n c is an near waits in (n, omega arith, near, is, rest);
          grows = omega arith;
        })
        | inl ready ↦
            let e = ready-next a n c is an near ready in
            rw (ready, last_number-eq a n c is an near)
              (step n c cs e is (
                reliable_run-RunsTo n cs
                  (Holds-mono body a n n n cs (omega arith) (omega arith) rest)))
      ]

  -- A channel that handed over `a` messages and holds messages behind the `last`, and no unreliable
  -- command.
  pub record HasHanded (a last : ℕ) (ch : Channel) : Type 0 where
    pub incoming : ch.incoming_reliable_sequence_number ≡ a % 65536
    pub held : Holds body a last ch.incoming_reliable_commands
    pub no_unreliable : ch.incoming_unreliable_commands ≡ []

  -- A channel between two arrivals: the next message is not there.
  abbrev pub Receives : ℕ → Channel → Type 0
  Receives a ch = HasHanded a (suc a) ch

  -- What a dispatch of such a channel gives.
  pub record Hands (a : ℕ) (d : Dispatched) : Type 0 where
    pub b : ℕ
    pub grows : a ≤ b
    pub segment : Segment body a d.moved b
    pub receives : Receives b d.channel

  after_run-Hands :
      (a : ℕ) (ch : Channel) (r : Run) (taken : List IncomingCommand)
      → r.taken ≡ taken
      → r.taken ++ r.rest ≡ ch.incoming_reliable_commands
      → HasHanded a a ch
      → RunsTo a r
      → Hands a (after_run ch r taken)
  unfolding after_run dispatch_unreliable
  after_run-Hands a ch r [] e whole rec runs =
      let same : r.rest ≡ ch.incoming_reliable_commands = sym (ap (λ t. t ++ r.rest) e) ∙ whole in
      let b_eq : a ≡ runs.b = subst (λ t. Segment body a t runs.b) e runs.taken in
      record {
        b = a;
        grows = omega arith;
        segment = refl;
        receives = record {
          incoming = rec.incoming;
          held =
              subst (Holds body a (suc a)) same
                (subst (λ b. Holds body b (suc b) r.rest) (sym b_eq) runs.held);
          no_unreliable = rec.no_unreliable;
        };
      }
  after_run-Hands a ch r (c ∷ cs) e whole rec runs =
      rw (rec.no_unreliable, unreliable_walk)
        (record {
          b = runs.b;
          grows = runs.grows;
          segment = rw append-nil (rw e at runs.taken);
          receives = record { incoming = runs.incoming; held = runs.held; no_unreliable = refl };
        })

  pub dispatch_reliable-Hands :
      (a : ℕ) (ch : Channel) → HasHanded a a ch → Hands a (dispatch_reliable ch)
  unfolding dispatch_reliable
  dispatch_reliable-Hands a ch rec = after_run-Hands a ch _ _ refl (reliable_run-append _ _) rec (
      subst (λ k. RunsTo a (reliable_run k ch.incoming_reliable_commands)) (sym rec.incoming)
        (reliable_run-RunsTo a ch.incoming_reliable_commands rec.held))

-- A list that begins with the next message gives up at least that.
pub dispatch_reliable-moves :
    (ch : Channel) (c : IncomingCommand) (cs : List IncomingCommand) (n : ℕ)
    → ch.incoming_reliable_commands ≡ c ∷ cs
    → ch.incoming_reliable_sequence_number ≡ n % 65536
    → c.reliable_sequence_number ≡ suc n % 65536
    → c.fragments_remaining ≡ 0
    → 1 ≤ length (dispatch_reliable ch).moved
unfolding dispatch_reliable
dispatch_reliable-moves ch c cs n e f g h =
    let ready : is_ready ch.incoming_reliable_sequence_number c ≡ true =
      unfold is_ready in ground arith in
    rw (e, reliable_run) (rw ready (unfold after_run in omega arith))
