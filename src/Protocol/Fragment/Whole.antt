-- ===== src/Protocol/Fragment/Whole.antt =====
-- A fragmented packet, from its first fragment to its last.
use toxsh.Prelude.{
  ℕ, zero, suc, ◌+◌, ◌≤◌, ◌<◌, ◌≡◌, refl, sym, ap, ◌∙◌, Bool, true, false, List, [], ◌∷◌, ◌++◌, map,
  none, some, set, get_or, take, length, replicate, arith, length-append, length-set,
  length-replicate, ltb,
}
use toxsh.Memory.{IncomingCommand}
use toxsh.Wire.{Fragment, Protocol}
use toxsh.Packet.{flag_reliable, packet_create}
use toxsh.Peer.Queue.{QueueAllocation, obtain}
use toxsh.Protocol.Fragment.{absorb, copy_to}
use toxsh.Protocol.Fragment.Assembly.{
  joined, offset_of, assembled, unset, chunk_at, copy_to-assembled, unset-set, assembled_all,
}

-- `f` with `payload` is piece `k` of a message that was cut in `chunks`.
pub record IsPiece (chunks : List (List ℕ)) (k : ℕ) (f : Fragment) (payload : List ℕ) : Type 0 where
  pub within : k < length chunks
  pub number : f.fragment_number ≡ k
  pub offset : f.fragment_offset ≡ offset_of chunks k
  pub size : f.data_length ≡ length (chunk_at chunks k)
  pub bytes : take f.data_length payload ≡ chunk_at chunks k

-- `c` holds the pieces whose bits are set.
pub record IsPartial (chunks : List (List ℕ)) (bits : List Bool) (c : IncomingCommand)
    : Type 0 where
  pub bitmap : c.fragments ≡ some bits
  pub pieces : length bits ≡ length chunks
  pub remaining : c.fragments_remaining ≡ unset bits
  pub content : c.packet.content ≡ assembled bits chunks
  pub size : c.packet.data_length ≡ length (joined chunks)

offset_in_range :
    (chunks : List (List ℕ)) (k : ℕ)
    → offset_of chunks k + length (chunk_at chunks k) ≤ length (joined chunks)
offset_in_range [] k = omega arith
offset_in_range (ch ∷ chs) zero = omega (arith, length-append ch (joined chs))
offset_in_range (ch ∷ chs) (suc k) =
    omega (arith, length-append ch (joined chs), offset_in_range chs k)

module _ (chunks : List (List ℕ)) (bits : List Bool) (k : ℕ) (f : Fragment) (payload : List ℕ)
    (c : IncomingCommand) (part : IsPartial chunks bits c) (piece : IsPiece chunks k f payload)
    (new : get_or bits k false ≡ false) where
  fitting : ltb c.packet.data_length (f.fragment_offset + f.data_length) ≡ false
  fitting =
      let a = part.size in
      let b = piece.offset in let e = piece.size in ground (arith, offset_in_range chunks k)

  pub absorb-IsPartial : IsPartial chunks (set bits k true) (absorb f payload bits c)
  unfolding absorb
  absorb-IsPartial = record {
    bitmap = ap (λ n. some (set bits n true)) piece.number;
    pieces = length-set bits k true ∙ part.pieces;
    remaining =
        let a = part.remaining in
        let b = part.pieces in
        let e = piece.within in omega (arith, unset-set bits k (omega arith) new);
    content = rw fitting (
        ap (λ n. copy_to n (map some (take f.data_length payload)) c.packet.content) piece.offset
        ∙ ap (λ xs. copy_to (offset_of chunks k) (map some xs) c.packet.content) piece.bytes
        ∙ ap (copy_to (offset_of chunks k) (map some (chunk_at chunks k))) part.content
        ∙ copy_to-assembled bits chunks k part.pieces piece.within);
    size = part.size;
  }

unset-replicate : (n : ℕ) → unset (replicate n false) ≡ n
unset-replicate zero = refl
unset-replicate (suc n) = ap suc (unset-replicate n)

replicate-add {ℓ} :
    {A : Type ℓ} (m n : ℕ) (a : A) → replicate (m + n) a ≡ replicate m a ++ replicate n a
replicate-add zero n a = ap (λ k. replicate k a) (omega arith)
replicate-add (suc m) n a =
    ap (λ k. replicate k a) {y = suc (m + n)} (omega arith) ∙ ap (◌∷◌ a) (replicate-add m n a)

assembled-none :
    (chunks : List (List ℕ))
    → assembled (replicate (length chunks) false) chunks ≡ replicate (length (joined chunks)) none
assembled-none [] = refl
assembled-none (ch ∷ chs) =
    ap (◌++◌ (replicate (length ch) none)) (assembled-none chs)
    ∙ sym (replicate-add (length ch) (length (joined chs)) none)
    ∙ ap (λ n. replicate n none) (sym (length-append ch (joined chs)))

-- A command that was queued for the message and took in pieces of it, each time one that was new.
pub data Collected (chunks : List (List ℕ)) : List Bool → IncomingCommand → Type 0 where
  opened :
      {c : IncomingCommand} (alloc : QueueAllocation) (command : Protocol) (u : ℕ)
      → obtain alloc command none (length (joined chunks)) flag_reliable (length chunks) u ≡ some c
      → Collected chunks (replicate (length chunks) false) c
  taken_in :
      {bits : List Bool} {c : IncomingCommand}
      → Collected chunks bits c
      → (k : ℕ) (f : Fragment) (payload : List ℕ) → IsPiece chunks k f payload
      → get_or bits k false ≡ false
      → Collected chunks (set bits k true) (absorb f payload bits c)

-- What a command made for fragments holds.
obtain_blank :
    (alloc : QueueAllocation) (command : Protocol) (n count u : ℕ) (c : IncomingCommand)
    → 0 < count
    → obtain alloc command none n flag_reliable count u ≡ some c
    → (c.fragments ≡ some (replicate count false))
      × (c.fragments_remaining ≡ count)
      × (c.packet.content ≡ replicate n none)
      × (c.packet.data_length ≡ n)
unfolding obtain packet_create
obtain_blank alloc command zero count u c pos e = ground arith
obtain_blank alloc command (suc n) count u c pos e = ground arith

obtain-IsPartial :
    (chunks : List (List ℕ)) (alloc : QueueAllocation) (command : Protocol) (u : ℕ)
    (c : IncomingCommand)
    → 0 < length chunks
    → obtain alloc command none (length (joined chunks)) flag_reliable (length chunks) u ≡ some c
    → IsPartial chunks (replicate (length chunks) false) c
obtain-IsPartial chunks alloc command u c pos e =
    let blank = obtain_blank alloc command (length (joined chunks)) (length chunks) u c pos e in
    record {
      bitmap = blank.0;
      pieces = length-replicate (length chunks) false;
      remaining = blank.1 ∙ sym (unset-replicate (length chunks));
      content = blank.2 ∙ sym (assembled-none chunks);
      size = blank.3;
    }

Collected-IsPartial :
    (chunks : List (List ℕ)) {bits : List Bool} {c : IncomingCommand}
    → 0 < length chunks
    → Collected chunks bits c
    → IsPartial chunks bits c
Collected-IsPartial chunks pos (opened {c} alloc command u e) =
    obtain-IsPartial chunks alloc command u c pos e
Collected-IsPartial chunks pos (taken_in {bits} {c} before k f payload piece new) =
    absorb-IsPartial chunks bits k f payload c (Collected-IsPartial chunks pos before) piece new

-- When no fragment remains, the packet holds the message, byte for byte.
pub Collected-whole :
    (chunks : List (List ℕ)) {bits : List Bool} {c : IncomingCommand}
    → 0 < length chunks
    → Collected chunks bits c
    → c.fragments_remaining ≡ 0
    → c.packet.content ≡ map some (joined chunks)
Collected-whole chunks {bits} pos r e =
    let part = Collected-IsPartial chunks pos r in
    part.content ∙ assembled_all bits chunks part.pieces (sym part.remaining ∙ e)
