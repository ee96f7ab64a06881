-- ===== src/Peer/Send/Pieces.antt =====
-- The fragments that a packet is sent in are the pieces of its bytes, as their receiver takes them in.
use toxsh.Prelude.{
  ℕ, zero, suc, ◌+◌, ◌-◌, ◌<◌, ◌≡◌, refl, sym, ap, All, ◌∙◌, Bool, true, false, List, [], ◌∷◌, ◌++◌,
  Option, none, some, if◌then◌else◌, take, drop, length, get_elem?, ltb, ap₂, ◌/◌, subst, arith,
  u16, u32, map, length-take, length-drop, min,
}
use toxsh.Wire.{Fragment, send_fragment}
use toxsh.Memory.{OutgoingCommand}
use toxsh.Peer.Send.{Cut, fragment_at, fragments_from}
use toxsh.Protocol.Fragment.Assembly.{
  joined, offset_of, chunk_at, take-append_self, drop-append_self,
}
use toxsh.Protocol.Fragment.Whole.{IsPiece}
use toxsh.Peer.Send.Chunks.{
  chunked, joined-chunked, chunked-room, drop-joined, chunk_at-length, chunked-length, drop-drop,
  take_twice,
}

-- A round of the loop that has a fragment to send.
round_made {ℓ} :
    {A : Type ℓ} (b m : Bool) (l : Option (List A)) (c : A) (cs : List A)
    → b ≡ true
    → (if b
        then (if m then elim l [ none ↦ none | some ds ↦ some (c ∷ ds) ] else none)
        else some [])
      ≡ some cs
    → (ds : List A) × (l ≡ some ds) × (cs ≡ c ∷ ds)
round_made false m l c cs t e = absurd cc
round_made true false l c cs t e = absurd cc
round_made true true none c cs t e = absurd cc
round_made true true (some ds) c cs t e = (ds, refl, cc)

ap₃ {ℓ κ} :
    {A : Type ℓ} {B : Type κ} (f : A → A → A → B) {x y : A}
    → x ≡ y
    → {u v : A} → u ≡ v
    → {p q : A} → p ≡ q
    → f x u p ≡ f y v q
ap₃ f a b c = cc

module _ (cut : Cut) where
  -- `cs` are the fragments of the chunks `chs`, from number `n` and offset `o` on.
  pub AreCut : ℕ → ℕ → List OutgoingCommand → List (List ℕ) → Type 0
  AreCut n o [] [] = Unit
  AreCut n o [] (ch ∷ chs) = ⊥
  AreCut n o (c ∷ cs) [] = ⊥
  AreCut n o (c ∷ cs) (ch ∷ chs) =
      (c ≡ fragment_at cut n o (length ch)) × AreCut (suc n) (o + length ch) cs chs

  -- The length of the fragment at offset `o`.
  abbrev size_at : ℕ → ℕ → ℕ
  size_at o room = if ltb (cut.total - o) room then cut.total - o else room

  fragments_from-step :
      (mallocs : ℕ → Bool) (fuel n o room : ℕ) (cs : List OutgoingCommand)
      → ltb o cut.total ≡ true
      → fragments_from mallocs cut (suc fuel) n o room ≡ some cs
      → (ds : List OutgoingCommand) × (fragments_from mallocs cut fuel
            (u32 (n + 1))
            (u32 (o + size_at o room))
            (size_at o room)
          ≡ some ds)
        × (cs ≡ fragment_at cut n o (size_at o room) ∷ ds)
  unfolding fragments_from
  fragments_from-step mallocs fuel n o room cs more e =
      round_made (ltb o cut.total) (mallocs n)
        (fragments_from mallocs cut fuel (u32 (n + 1)) (u32 (o + size_at o room)) (size_at o room))
        (fragment_at cut n o (size_at o room)) cs more e

  AreCut-cons :
      (n o : ℕ) (ch : List ℕ) (chs : List (List ℕ)) {size : ℕ} {cs ds : List OutgoingCommand}
      → cs ≡ fragment_at cut n o size ∷ ds
      → size ≡ length ch
      → AreCut (suc n) (o + length ch) ds chs
      → AreCut n o cs (ch ∷ chs)
  unfolding AreCut
  AreCut-cons n o ch chs {ds = ds} e same later =
      subst (λ l. AreCut n o l (ch ∷ chs)) (sym (e ∙ ap (λ k. fragment_at cut n o k ∷ ds) same))
        (refl, later)

  pub fragments_from-AreCut :
      (mallocs : ℕ → Bool) (fuel n o room : ℕ) (xs : List ℕ) (cs : List OutgoingCommand)
      → 0 < room
      → o + length xs ≡ cut.total
      → n + length xs < 4294967296
      → cut.total < 4294967296
      → fragments_from mallocs cut fuel n o room ≡ some cs
      → AreCut n o cs (chunked fuel room xs)
  unfolding fragments_from chunked AreCut
  fragments_from-AreCut mallocs zero n o room xs [] pos total few small e = tt
  fragments_from-AreCut mallocs zero n o room xs (c ∷ cs) pos total few small e = absurd cc
  fragments_from-AreCut mallocs (suc fuel) n o room [] [] pos total few small e = tt
  fragments_from-AreCut mallocs (suc fuel) n o room [] (c ∷ cs) pos total few small e =
      absurd (ground arith)
  fragments_from-AreCut mallocs (suc fuel) n o room (x ∷ xs) cs pos total few small e =
      let made = fragments_from-step mallocs fuel n o room cs (ground arith) e in
      let ch = take room (x ∷ xs) in
      let ys = drop room (x ∷ xs) in
      let len : length ch ≡ min room (suc (length xs)) = length-take room (x ∷ xs) in
      let left : length ys ≡ suc (length xs) - room = length-drop room (x ∷ xs) in
      let size : size_at o room ≡ length ch = ground arith in
      let number : suc n ≡ u32 (n + 1) = omega arith in
      let offset : o + length ch ≡ u32 (o + size_at o room) = omega arith in
      let later : fragments_from mallocs cut fuel (suc n) (o + length ch) (length ch)
          ≡ some made.0 =
        ap₃ (fragments_from mallocs cut fuel) number offset (sym size) ∙ made.1 in
      AreCut-cons n o ch (chunked fuel room ys) made.2 size (
        subst (AreCut (suc n) (o + length ch) made.0)
          (chunked-room fuel room (length ch) ys (ground arith))
          (fragments_from-AreCut mallocs fuel (suc n) (o + length ch) (length ch) ys made.0
            (omega arith) (omega arith) (omega arith) small later))

  -- The fragment at each index.
  AreCut-get_elem? :
      (n o k : ℕ) (cs : List OutgoingCommand) (chs : List (List ℕ)) (c : OutgoingCommand)
      → AreCut n o cs chs
      → get_elem? cs k ≡ some c
      → (k < length chs)
        × (c ≡ fragment_at cut (n + k) (o + offset_of chs k) (length (chunk_at chs k)))
  unfolding AreCut
  AreCut-get_elem? n o k [] [] c h e = absurd cc
  AreCut-get_elem? n o k (d ∷ cs) [] c h e = absurd h
  AreCut-get_elem? n o k [] (ch ∷ chs) c h e = absurd h
  AreCut-get_elem? n o zero (d ∷ cs) (ch ∷ chs) c h e =
      let same : c ≡ d = cc in
      let number : n ≡ n + 0 = omega arith in
      let offset : o ≡ o + 0 = omega arith in
      (omega arith, same ∙ h.0 ∙ ap₂ (λ a b. fragment_at cut a b (length ch)) number offset)
  AreCut-get_elem? n o (suc k) (d ∷ cs) (ch ∷ chs) c h e =
      let ih = AreCut-get_elem? (suc n) (o + length ch) k cs chs c h.1 e in
      let number : suc n + k ≡ n + suc k = omega arith in
      let offset : o + length ch + offset_of chs k ≡ o + (length ch + offset_of chs k) =
        omega arith in
      (
        omega (arith, ih.0),
        ih.1 ∙ ap₂ (λ a b. fragment_at cut a b (length (chunk_at chs k))) number offset,
      )

  AreCut-length :
      (n o : ℕ) (cs : List OutgoingCommand) (chs : List (List ℕ))
      → AreCut n o cs chs
      → length cs ≡ length chs
  unfolding AreCut
  AreCut-length n o [] [] h = refl
  AreCut-length n o [] (ch ∷ chs) h = absurd h
  AreCut-length n o (c ∷ cs) [] h = absurd h
  AreCut-length n o (c ∷ cs) (ch ∷ chs) h =
      ap suc (AreCut-length (suc n) (o + length ch) cs chs h.1)

-- The data that goes out behind a command: its part of the packet's bytes.
unfoldable pub payload_of : List ℕ → OutgoingCommand → List ℕ
payload_of bytes c = take c.fragment_length (drop c.fragment_offset bytes)

-- The fragments of short chunks, which begin at offset `o` of the bytes, carry the chunks.
AreCut-joined :
    (cut : Cut) (bytes : List ℕ) (n o : ℕ) (cs : List OutgoingCommand) (chs : List (List ℕ))
    → ((k : ℕ) → length (chunk_at chs k) < 65536)
    → drop o bytes ≡ joined chs
    → AreCut cut n o cs chs
    → joined (map (payload_of bytes) cs) ≡ joined chs
unfolding AreCut payload_of fragment_at
AreCut-joined cut bytes n o [] [] short at h = refl
AreCut-joined cut bytes n o [] (ch ∷ chs) short at h = absurd h
AreCut-joined cut bytes n o (c ∷ cs) [] short at h = absurd h
AreCut-joined cut bytes n o (c ∷ cs) (ch ∷ chs) short at h =
    let size : u16 (length ch) ≡ length ch = omega (arith, short 0) in
    let first : payload_of bytes c ≡ ch =
      ap (payload_of bytes) h.0
      ∙ ap₂ (λ k xs. take k xs) size at
      ∙ take-append_self ch (joined chs) in
    let next : drop (o + length ch) bytes ≡ joined chs =
      drop-drop o (length ch) bytes ∙ ap (drop (length ch)) at ∙ drop-append_self ch (joined chs) in
    ap₂ (◌++◌) first
      (AreCut-joined cut bytes (suc n) (o + length ch) cs chs (λ k. short (suc k)) next h.1)

-- A fragment whose header tells the receiver which of the packet's bytes it carries.
unfoldable pub IsLabelled : OutgoingCommand → Type 0
IsLabelled c =
    (f : Fragment) × (c.command.body ≡ send_fragment f)
    × (f.fragment_offset ≡ c.fragment_offset)
    × (f.data_length ≡ c.fragment_length)

AreCut-IsLabelled :
    (cut : Cut) (n o : ℕ) (cs : List OutgoingCommand) (chs : List (List ℕ))
    → AreCut cut n o cs chs
    → All IsLabelled cs
unfolding AreCut IsLabelled fragment_at
AreCut-IsLabelled cut n o [] chs h = tt
AreCut-IsLabelled cut n o (c ∷ cs) [] h = absurd h
AreCut-IsLabelled cut n o (c ∷ cs) (ch ∷ chs) h = (
  subst IsLabelled (sym h.0) (_, refl, refl, refl),
  AreCut-IsLabelled cut (suc n) (o + length ch) cs chs h.1,
)

module _ (mallocs : ℕ → Bool) (cut : Cut) (room : ℕ) (bytes : List ℕ) (cs : List OutgoingCommand)
    (pos : 0 < room) (total : length bytes ≡ cut.total) (small : cut.total < 4294967296)
    (made : fragments_from mallocs cut cut.total 0 0 room ≡ some cs) where
  are_cut : AreCut cut 0 0 cs (chunked cut.total room bytes)
  are_cut =
      fragments_from-AreCut cut mallocs cut.total 0 0 room bytes cs pos (omega (arith, total))
        (omega (arith, total)) small made

  chunked-joined : joined (chunked cut.total room bytes) ≡ bytes
  chunked-joined = joined-chunked cut.total room bytes pos (omega (arith, total))

  -- The bytes of a packet of less than 2 ^ 32, of which a datagram has room for `room`, at least one and
  -- less than 2 ^ 16, are sent in as many fragments as the bytes fill, rounded up, and what the fragments
  -- carry, put together in their order, is the packet; the header of each tells which bytes it carries.
  pub sent-joined :
      room < 65536
      → (joined (map (payload_of bytes) cs) ≡ bytes)
        × (length cs ≡ (cut.total + room - 1) / room)
        × All IsLabelled cs
  sent-joined narrow = (
    AreCut-joined cut bytes 0 0 cs (chunked cut.total room bytes)
          (λ k. omega (arith, chunk_at-length cut.total room k bytes)) (sym chunked-joined) are_cut
        ∙ chunked-joined,
    AreCut-length cut 0 0 cs (chunked cut.total room bytes) are_cut
        ∙ chunked-length cut.total room bytes pos (omega (arith, total))
        ∙ ap (λ n. (n + room - 1) / room) total,
    AreCut-IsLabelled cut 0 0 cs (chunked cut.total room bytes) are_cut,
  )

  -- With room for at least one byte and less than 2 ^ 16, in a packet of less than 2 ^ 32, the k-th
  -- fragment that is sent, with its data, is piece k of the packet, as its receiver takes it in.
  pub sent-IsPiece :
      (k : ℕ) (c : OutgoingCommand)
      → room < 65536
      → get_elem? cs k ≡ some c
      → (f : Fragment) × (c.command.body ≡ send_fragment f)
        × IsPiece (chunked cut.total room bytes) k f (payload_of bytes c)
  unfolding payload_of fragment_at
  sent-IsPiece k c narrow at =
      let chunks = chunked cut.total room bytes in
      let found = AreCut-get_elem? cut 0 0 k cs chunks c are_cut at in
      let size : u16 (length (chunk_at chunks k)) ≡ length (chunk_at chunks k) =
        omega (arith, chunk_at-length cut.total room k bytes) in
      let part = length (chunk_at chunks k) in
      let f : Fragment = record {
        start_sequence_number = cut.start_sequence_number;
        data_length = u16 part;
        fragment_count = cut.count;
        fragment_number = 0 + k;
        total_length = u32 cut.total;
        fragment_offset = 0 + offset_of chunks k;
      } in
      let offset : 0 + offset_of chunks k ≡ offset_of chunks k = omega arith in
      let bytes_at : take (u16 part) (drop (0 + offset_of chunks k) bytes) ≡ chunk_at chunks k =
        ap₂ (λ n o. take n (drop o bytes)) size offset
        ∙ ap (λ xs. take part (drop (offset_of chunks k) xs)) (sym chunked-joined)
        ∙ drop-joined chunks k in
      (
        f,
        ap (λ d. d.command.body) found.1,
        record {
          within = found.0;
          number = omega arith;
          offset = omega arith;
          size = size;
          bytes =
              ap (take (u16 part)) (ap (payload_of bytes) found.1)
              ∙ take_twice (u16 part) (drop (0 + offset_of chunks k) bytes)
              ∙ bytes_at;
        },
      )
