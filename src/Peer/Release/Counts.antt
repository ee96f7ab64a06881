-- ===== src/Peer/Release/Counts.antt =====
-- Reference counts: a packet is in memory as long as an entry of a queue points to it.
use toxsh.Prelude.{
  ℕ, ◌+◌, ◌≤◌, ◌<◌, ◌≡◌, sym, ap, Bool-cases, ◌∙◌, ◌==◌, List, [], ◌∷◌, ◌++◌, Option, none, some,
  if◌then◌else◌, arith, length, Option-cases, inl, inr,
}
use toxsh.Memory.{OutgoingCommand, Packet, Store}
use toxsh.Peer.Connection.{one_less}
use toxsh.Peer.Release.{write, dropped, release, reset_outgoing_commands}

-- How often a pointer points to `a`, and how many of the entries do.
abbrev points : ℕ → Option ℕ → ℕ
points a none = 0
points a (some b) = if b == a then 1 else 0

abbrev pub refs : ℕ → List OutgoingCommand → ℕ
refs a [] = 0
refs a (c ∷ cs) = points a c.packet + refs a cs

-- The reference count of the packet at `a`, 0 where there is none.
abbrev count_of : Option Packet → ℕ
count_of none = 0
count_of (some p) = p.reference_count

-- Every packet counts the entries of `cs` that point to it.
abbrev pub Counted : List OutgoingCommand → Store → Type 0
Counted cs store = (a : ℕ) → count_of (store a) ≡ refs a cs

refs-length : (a : ℕ) (cs : List OutgoingCommand) → refs a cs ≤ length cs
refs-length a [] = omega arith
refs-length a (c ∷ cs) = let ih = refs-length a cs in ground arith

dropped-count :
    (p : Packet) (n : ℕ)
    → p.reference_count ≡ 1 + n
    → n < 18446744073709551615
    → count_of (dropped p) ≡ n
unfolding dropped one_less
dropped-count p n e small = ground arith

release-count :
    (pointer : Option ℕ) (store : Store) (a n : ℕ)
    → count_of (store a) ≡ points a pointer + n
    → n < 18446744073709551615
    → count_of (release pointer store a) ≡ n
unfolding release write dropped one_less
release-count none store a n e small = omega (arith, e)
release-count (some b) store a n e small = elim (Option-cases (store b)) [
  | inl missing ↦ rw (missing, release) (unheld missing)
  | inr (p, there) ↦ elim (Bool-cases (b == a)) [
    | inl same ↦
        let at : b ≡ a = ground arith in
        let held : p.reference_count ≡ 1 + n =
          ap count_of (sym there)
          ∙ ap (λ x. count_of (store x)) at
          ∙ e
          ∙ ap (λ t. (if t then 1 else 0) + n) same in
        rw (there, same, release, write) (dropped-count p n held small)
    | inr other ↦
        rw (there, other, release, write)
          (e ∙ ap (λ t. (if t then 1 else 0) + n) other ∙ zero_add n)
  ]
]
  where
    zero_add : (m : ℕ) → 0 + m ≡ m
    zero_add m = omega arith

    unheld : store b ≡ none → count_of (store a) ≡ n
    unheld missing = elim (Bool-cases (b == a)) [
      | inl same ↦
          let at : b ≡ a = ground arith in
          let held : 0 ≡ 1 + n =
            ap count_of (sym missing)
            ∙ ap (λ x. count_of (store x)) at
            ∙ e
            ∙ ap (λ t. (if t then 1 else 0) + n) same in
          absurd (omega (arith, held))
      | inr other ↦ e ∙ ap (λ t. (if t then 1 else 0) + n) other ∙ zero_add n
    ]

-- When the entries `cs` are freed, every packet counts the entries `ds` that are left, fewer than 2 ^ 64
-- in all, if it counted all of them before.
pub reset_outgoing_commands-Counted :
    (cs ds : List OutgoingCommand) (store : Store)
    → length (cs ++ ds) < 18446744073709551616
    → Counted (cs ++ ds) store
    → Counted ds (reset_outgoing_commands cs store)
unfolding reset_outgoing_commands
reset_outgoing_commands-Counted [] ds store small h = h
reset_outgoing_commands-Counted (c ∷ cs) ds store small h =
    reset_outgoing_commands-Counted cs ds (release c.packet store) (omega arith) (λ a.
      release-count c.packet store a (refs a (cs ++ ds)) (h a)
        (omega (arith, refs-length a (cs ++ ds))))
