-- ===== src/Wire/Layout/Extent.antt =====
-- toxtun/protocol.c, enet_protocol_handle_incoming_commands: which bytes the reading of a command takes.
use toxsh.Prelude.{
  ℕ, ◌+◌, ◌≤◌, ◌<◌, ◌≡◌, ◌⊎◌, inl, inr, refl, List, [], ◌∷◌, Option, none, some, length, arith,
  get_elem?, Option-cases,
}
use toxsh.Wire.{Protocol, CommandHeader, Body}
use toxsh.Wire.Command
use toxsh.Wire.Layout.{
  Kind, byte, short, long, native, width, get, get_all, decode, decode_behind, decode_body, members,
}

-- The bytes that fields take.
unfoldable pub extent : List Kind → ℕ
unfolding width
extent [] = 0
extent (k ∷ ks) = width k + extent ks

get-cases :
    (k : Kind) (bs : List ℕ)
    → ((get k bs ≡ none) × (length bs < width k))
      ⊎ ((n : ℕ) × (rest : List ℕ) × (get k bs ≡ some (n, rest))
          × (length rest + width k ≡ length bs))
unfolding get width
get-cases byte [] = inl (refl, omega arith)
get-cases byte (a ∷ bs) = inr (_, _, refl, omega arith)
get-cases short [] = inl (refl, omega arith)
get-cases short (a ∷ []) = inl (refl, omega arith)
get-cases short (a ∷ b ∷ bs) = inr (_, _, refl, omega arith)
get-cases long [] = inl (refl, omega arith)
get-cases long (a ∷ []) = inl (refl, omega arith)
get-cases long (a ∷ b ∷ []) = inl (refl, omega arith)
get-cases long (a ∷ b ∷ c ∷ []) = inl (refl, omega arith)
get-cases long (a ∷ b ∷ c ∷ d ∷ bs) = inr (_, _, refl, omega arith)
get-cases native [] = inl (refl, omega arith)
get-cases native (a ∷ []) = inl (refl, omega arith)
get-cases native (a ∷ b ∷ []) = inl (refl, omega arith)
get-cases native (a ∷ b ∷ c ∷ []) = inl (refl, omega arith)
get-cases native (a ∷ b ∷ c ∷ d ∷ bs) = inr (_, _, refl, omega arith)

get_all-done : (bs : List ℕ) → get_all [] bs ≡ some ([], bs)
unfolding get_all
get_all-done bs = refl

-- Fields are read if and only if their bytes are there.
pub get_all-cases :
    (ks : List Kind) (bs : List ℕ)
    → ((get_all ks bs ≡ none) × (length bs < extent ks))
      ⊎ ((ns : List ℕ) × (rest : List ℕ) × (get_all ks bs ≡ some (ns, rest))
          × (length ns ≡ length ks)
          × (length rest + extent ks ≡ length bs))
unfolding extent get_all
get_all-cases [] bs = inr ([], bs, get_all-done bs, refl, omega arith)
get_all-cases (k ∷ ks) bs = elim (get-cases k bs) [
  | inl (e, few) ↦ inl (rw (get_all, e) refl, omega (arith, few))
  | inr (n, rest, e, taken) ↦ elim (get_all-cases ks rest) [
    | inl (e', few) ↦ inl (rw (get_all, e, e') refl, omega (arith, few, taken))
    | inr (ns, rest', e', many, taken') ↦
        inr (
          n ∷ ns,
          rest',
          rw (get_all, e, e') refl,
          omega (arith, many),
          omega (arith, taken, taken'),
        )
  ]
]

decode_body-shorter :
    (h : CommandHeader) (m : List Kind × (List ℕ → Option Body)) (bs : List ℕ) (c : Protocol)
    (rest : List ℕ)
    → decode_body h m bs ≡ some (c, rest)
    → length rest ≤ length bs
unfolding decode_body
decode_body-shorter h (kinds, build) bs c rest e = elim (get_all-cases kinds bs) [
  | inl (none_there, few) ↦ ground arith
  | inr (ns, behind, read, many, taken) ↦ elim (Option-cases (build ns)) [
    | inl e' ↦ ground arith
    | inr (body, e') ↦ ground arith
  ]
]

decode_behind-shorter :
    (ns bs : List ℕ) (c : Protocol) (rest : List ℕ)
    → decode_behind ns bs ≡ some (c, rest)
    → length rest ≤ length bs
unfolding decode_behind
decode_behind-shorter [] bs c rest e = ground arith
decode_behind-shorter (a ∷ []) bs c rest e = ground arith
decode_behind-shorter (a ∷ b ∷ []) bs c rest e = ground arith
decode_behind-shorter (a ∷ b ∷ n ∷ []) bs c rest e =
    elim (Option-cases (get_elem? (([], λ ns. none) ∷ members) (Command.number a))) [
      | inl e' ↦ ground arith
      | inr (m, e') ↦ decode_body-shorter _ m bs c rest (rw (decode_behind, e') at e)
    ]
decode_behind-shorter (a ∷ b ∷ n ∷ m ∷ ns) bs c rest e = ground arith

-- What stands behind a command that is read is shorter by its header at least.
pub decode-shorter :
    (bs : List ℕ) (c : Protocol) (rest : List ℕ)
    → decode bs ≡ some (c, rest)
    → length rest + 4 ≤ length bs
unfolding decode extent
decode-shorter bs c rest e = elim (get_all-cases (byte ∷ byte ∷ short ∷ []) bs) [
  | inl (none_there, few) ↦ ground arith
  | inr (ns, behind, read, many, taken) ↦
      omega (arith, decode_behind-shorter ns behind c rest (rw (decode, read) at e))
]
