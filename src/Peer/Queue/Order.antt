-- ===== src/Peer/Queue/Order.antt =====
-- The search for a reliable command's place, under absolute message numbers.
use mathlib.Core.List.{reverse_aux}
use toxsh.Prelude.{
  ℕ, suc, ◌∙◌, ◌+◌, ◌-◌, ◌%◌, ◌≤◌, ◌<◌, ◌≡◌, refl, ◌⊎◌, inl, inr, List, [], ◌∷◌, Option, none, some,
  arith,
}
use toxsh.Memory.{IncomingCommand}
use toxsh.Peer.Queue.{Position, search_reliable}
use toxsh.Peer.Messages.{reach, Holds, HoldsBack, Holds-mono}

compare_cases : (m n : ℕ) → (n < m) ⊎ (n ≡ m) ⊎ (m < n)
compare_cases m n = grind arith

module _ (a m n : ℕ) (c : IncomingCommand) (cs after : List IncomingCommand)
    (numbered : c.reliable_sequence_number ≡ n % 65536) (am : a < m) (mr : m < a + 65536)
    (an : a < n) (nr : n < a + 65536) where
  search-older :
      n < m
      → search_reliable (a % 65536) (m % 65536) (c ∷ cs) after
        ≡ some (record { before = c ∷ cs; after = after })
  unfolding search_reliable
  search-older h = rw numbered (ground arith)

  search-same : n ≡ m → search_reliable (a % 65536) (m % 65536) (c ∷ cs) after ≡ none
  unfolding search_reliable
  search-same h = rw numbered (ground arith)

  search-newer :
      m < n
      → search_reliable (a % 65536) (m % 65536) (c ∷ cs) after
        ≡ search_reliable (a % 65536) (m % 65536) cs (c ∷ after)
  unfolding search_reliable
  search-newer h = rw numbered (ground arith)

module _ (body : ℕ → List ℕ) (a m : ℕ) where
  -- The place found splits the list at message `m`; none is found only if it is there.
  abbrev pub IsPlace : Option Position → Type 0
  IsPlace none = Unit {0}
  IsPlace (some p) = HoldsBack body a m p.before × Holds body a m p.after

  pub search-IsPlace :
      (next last : ℕ) (cs after : List IncomingCommand)
      → a < m
      → m < a + reach
      → next ≤ suc last
      → m ≤ last
      → HoldsBack body a next cs
      → Holds body a last after
      → IsPlace (search_reliable (a % 65536) (m % 65536) cs after)
  search-IsPlace next last [] after am mr p q back h =
      unfold search_reliable in (tt, Holds-mono body a a last m after (omega arith) q h)
  search-IsPlace next last (c ∷ cs) after am mr p q (n, an, nn, nr, is, rest) h =
      elim (compare_cases m n) [
        | inl older ↦
            rw (search-older a m n c cs after is.numbered am (omega arith) an (omega arith) older)
              ((n, an, older, nr, is, rest), Holds-mono body a a last m after (omega arith) q h)
        | inr (inl same) ↦
            rw (search-same a m n c cs after is.numbered am (omega arith) an (omega arith) same) tt
        | inr (inr newer) ↦
            rw (search-newer a m n c cs after is.numbered am (omega arith) an (omega arith) newer) (
              search-IsPlace n (n - 1) cs (c ∷ after) am mr (omega arith) (omega arith) rest (
                n,
                omega arith,
                nr,
                is,
                Holds-mono body a a last n after (omega arith) (omega arith) h,
              ))
      ]

-- Below all that is held, the place is in front.
pub search-front :
    (body : ℕ → List ℕ) (a next : ℕ) (cs after : List IncomingCommand)
    → HoldsBack body (suc a) next cs
    → search_reliable (a % 65536) (suc a % 65536) cs after
      ≡ some (record { before = []; after = reverse_aux cs after })
search-front body a next [] after back = unfold search_reliable in refl
search-front body a next (c ∷ cs) after (n, an, nn, nr, is, rest) =
    search-newer a (suc a) n c cs after is.numbered (omega arith) (omega arith) (omega arith)
      (omega arith) an
    ∙ search-front body a n cs (c ∷ after) rest
