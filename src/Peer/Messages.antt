-- ===== src/Peer/Messages.antt =====
-- Reliable messages of a channel under absolute numbers: the n-th message of a channel, from 1 on,
-- bears the sequence number n % 2 ^ 16. What a receiver holds, in these terms.
use mathlib.Core.List.{reverse_aux}
use toxsh.Prelude.{
  ℕ, zero, suc, ◌+◌, ◌%◌, ◌≤◌, ◌<◌, ◌≡◌, refl, ap, ◌∙◌, List, [], ◌∷◌, ◌++◌, map, Option, some,
  arith, length,
}
use toxsh.Memory.{IncomingCommand}

-- How far ahead of the last message delivered a message may be kept: seven windows.
abbrev pub reach : ℕ
reach = 28672

-- `body n` is what the sender put in its n-th message.
module _ (body : ℕ → List ℕ) where
  -- `c` holds the n-th message, whole.
  pub record IsMessage (n : ℕ) (c : IncomingCommand) : Type 0 where
    pub numbered : c.reliable_sequence_number ≡ n % 65536
    pub complete : c.fragments_remaining ≡ 0
    pub unfragmented : c.fragment_count ≡ 0
    pub intact : c.packet.content ≡ map some (body n)

  -- With `delivered` messages handed over, `cs` holds messages behind the `last`, in order.
  abbrev pub Holds : ℕ → ℕ → List IncomingCommand → Type 0
  Holds delivered last [] = Unit {0}
  Holds delivered last (c ∷ cs) =
      (n : ℕ) × (last < n) × (n < delivered + reach) × IsMessage n c × Holds delivered n cs

  -- The same for a list from its end: messages before the `next`, newest first.
  abbrev pub HoldsBack : ℕ → ℕ → List IncomingCommand → Type 0
  HoldsBack delivered next [] = Unit {0}
  HoldsBack delivered next (c ∷ cs) =
      (n : ℕ) × (delivered < n)
      × (n < next)
      × (n < delivered + reach)
      × IsMessage n c
      × HoldsBack delivered n cs

  -- `cs` are the messages from `a + 1` to `b`, in order.
  abbrev pub Segment : ℕ → List IncomingCommand → ℕ → Type 0
  Segment a [] b = a ≡ b
  Segment a (c ∷ cs) b = IsMessage (suc a) c × Segment (suc a) cs b

  -- The contents of `k` messages behind the first `a`.
  abbrev pub stream : ℕ → ℕ → List (List (Option ℕ))
  stream a zero = []
  stream a (suc k) = map some (body (suc a)) ∷ stream (suc a) k

  pub Holds-mono :
      (a b l k : ℕ) (cs : List IncomingCommand) → a ≤ b → k ≤ l → Holds a l cs → Holds b k cs
  Holds-mono a b l k [] p q h = tt
  Holds-mono a b l k (c ∷ cs) p q (n, above, near, is, rest) =
      (n, omega arith, omega arith, is, Holds-mono a b n n cs p (omega arith) rest)

  pub HoldsBack-mono :
      (a m n : ℕ) (cs : List IncomingCommand) → m ≤ n → HoldsBack a m cs → HoldsBack a n cs
  HoldsBack-mono a m n [] q h = tt
  HoldsBack-mono a m n (c ∷ cs) q (k, above, below, near, is, rest) =
      (k, above, omega arith, near, is, rest)

  -- Turning a list round, onto what follows it.
  pub reverse_aux-Holds :
      (a next last : ℕ) (cs acc : List IncomingCommand)
      → next ≤ suc last
      → a ≤ last
      → HoldsBack a next cs
      → Holds a last acc
      → Holds a a (reverse_aux cs acc)
  reverse_aux-Holds a next last [] acc p q back h = Holds-mono a a last a acc (omega arith) q h
  reverse_aux-Holds a next last (c ∷ cs) acc p q (suc n, above, below, near, is, rest) h =
      reverse_aux-Holds a (suc n) n cs (c ∷ acc) (omega arith) (omega arith) rest (
        suc n,
        omega arith,
        near,
        is,
        Holds-mono a a last (suc n) acc (omega arith) (omega arith) h,
      )
  reverse_aux-Holds a next last (c ∷ cs) acc p q (zero, above, below, near, is, rest) h =
      absurd (omega arith)

  pub reverse_aux-HoldsBack :
      (a last : ℕ) (cs acc : List IncomingCommand)
      → a ≤ last
      → last < a + reach
      → Holds a last cs
      → HoldsBack a (suc last) acc
      → HoldsBack a (a + reach) (reverse_aux cs acc)
  reverse_aux-HoldsBack a last [] acc p q h back =
      HoldsBack-mono a (suc last) (a + reach) acc (omega arith) back
  reverse_aux-HoldsBack a last (c ∷ cs) acc p q (n, above, near, is, rest) back =
      reverse_aux-HoldsBack a n cs (c ∷ acc) (omega arith) near rest (
        n,
        omega arith,
        omega arith,
        near,
        is,
        HoldsBack-mono a (suc last) n acc (omega arith) back,
      )

  pub Segment-stream :
      (a b : ℕ) (cs : List IncomingCommand)
      → Segment a cs b
      → (map (λ c. c.packet.content) cs ≡ stream a (length cs)) × (b ≡ a + length cs)
  Segment-stream a b [] h = (refl, omega arith)
  Segment-stream a b (c ∷ cs) (is, rest) =
      let ih = Segment-stream (suc a) b cs rest in (rw (ih.0, is.intact), omega (arith, ih.1))

  pub stream-append : (a j k : ℕ) → stream a (j + k) ≡ stream a j ++ stream (a + j) k
  stream-append a zero k = rw (zero_add k, add_zero a)
    where
      zero_add : (n : ℕ) → zero + n ≡ n
      zero_add n = omega arith

      add_zero : (n : ℕ) → n + zero ≡ n
      add_zero n = omega arith
  stream-append a (suc j) k = rw (suc_add j k, shift a j) (rw (stream-append (suc a) j k))
    where
      suc_add : (n m : ℕ) → suc n + m ≡ suc (n + m)
      suc_add n m = omega arith

      shift : (n m : ℕ) → n + suc m ≡ suc n + m
      shift n m = omega arith

  pub stream-append_zero : (j k : ℕ) → stream 0 (j + k) ≡ stream 0 j ++ stream j k
  stream-append_zero j k = stream-append 0 j k ∙ ap (λ a. stream 0 j ++ stream a k) (zero_add j)
    where
      zero_add : (n : ℕ) → 0 + n ≡ n
      zero_add n = omega arith
