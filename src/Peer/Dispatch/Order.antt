-- ===== src/Peer/Dispatch/Order.antt =====
-- The reliable dispatch hands over an unbroken run of sequence numbers, and stops only where the next
-- one is missing.
use toxsh.Prelude.{
  ℕ, ◌+◌, ◌≡◌, refl, ap, subst, true, false, max, ◌<◌, ◌≢◌, ◌⊎◌, List, [], ◌∷◌, ◌++◌, u16, arith,
  Bool-cases, inl, inr,
}
use toxsh.Memory.{IncomingCommand}
use toxsh.Peer.Dispatch.{reliable_run, is_ready, last_number}

-- How many numbers a command takes: one, or one for each of its fragments.
unfoldable pub numbers_of : IncomingCommand → ℕ
numbers_of c = max 1 c.fragment_count

-- `cs` are complete commands, each of which begins at the number behind those of the one before it, from
-- `from + 1` on modulo 2 ^ 16; `to` is the last number of the last of them.
pub data Consecutive : ℕ → List IncomingCommand → ℕ → Type 0 where
  nil : {from : ℕ} → Consecutive from [] from
  cons :
      {from to : ℕ} {c : IncomingCommand} {cs : List IncomingCommand}
      → c.fragments_remaining ≡ 0
      → c.reliable_sequence_number ≡ u16 (from + 1)
      → Consecutive (u16 (from + numbers_of c)) cs to
      → Consecutive from (c ∷ cs) to

-- The next number is missing: no complete command with it is the first of the list.
unfoldable pub Waits : ℕ → List IncomingCommand → Type 0
Waits to [] = Unit
Waits to (c ∷ cs) = (0 < c.fragments_remaining) ⊎ (c.reliable_sequence_number ≢ u16 (to + 1))

is_ready_facts :
    (incoming : ℕ) (c : IncomingCommand)
    → is_ready incoming c ≡ true
    → (c.fragments_remaining ≡ 0) × (c.reliable_sequence_number ≡ u16 (incoming + 1))
unfolding is_ready
is_ready_facts incoming c h = ground arith

Waits-facts :
    (incoming : ℕ) (c : IncomingCommand) (cs : List IncomingCommand)
    → is_ready incoming c ≡ false
    → Waits incoming (c ∷ cs)
unfolding is_ready Waits
Waits-facts incoming c cs h = ground arith

last_number-numbers_of :
    (incoming : ℕ) (c : IncomingCommand)
    → c.reliable_sequence_number ≡ u16 (incoming + 1)
    → last_number c ≡ u16 (incoming + numbers_of c)
unfolding last_number numbers_of
last_number-numbers_of incoming c e = ground (arith, e)

-- The reliable loop passes the longest unbroken run: the commands that it passes are complete, and each
-- begins behind the numbers of the one before it, fragments included, from the channel's number to the
-- number that the loop leaves there; these commands and the rest are the list; and the rest does not
-- begin with a complete command of the next number.
pub reliable_run-Consecutive :
    (incoming : ℕ) (cs : List IncomingCommand)
    → let run = reliable_run incoming cs in
      Consecutive incoming run.taken run.incoming
      × (run.taken ++ run.rest ≡ cs)
      × Waits run.incoming run.rest
unfolding reliable_run Waits
reliable_run-Consecutive incoming [] = (nil, refl, tt)
reliable_run-Consecutive incoming (c ∷ cs) = elim (Bool-cases (is_ready incoming c)) [
  | inl ready ↦
      let (complete, next) = is_ready_facts incoming c ready in
      let (run, whole, waits) = reliable_run-Consecutive (last_number c) cs in
      rw ready (
        cons complete next (
            subst
              (λ n.
                Consecutive n (reliable_run (last_number c) cs).taken
                  (reliable_run (last_number c) cs).incoming)
              (last_number-numbers_of incoming c next) run),
        ap (◌∷◌ c) whole,
        waits,
      )
  | inr waits ↦ rw waits (nil, refl, Waits-facts incoming c cs waits)
]

-- The run and the rest are the list.
pub reliable_run-append :
    (incoming : ℕ) (cs : List IncomingCommand)
    → (reliable_run incoming cs).taken ++ (reliable_run incoming cs).rest ≡ cs
reliable_run-append incoming cs = (reliable_run-Consecutive incoming cs).1
