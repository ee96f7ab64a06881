-- ===== src/Packet.antt =====
-- toxtun/packet.c: packets, without the callback of a user. Whether an allocation succeeds is an
-- argument.
pub mod Checksum
pub mod Xor
pub mod Linear
pub mod Reference
pub mod Resize
use toxsh.Prelude.{
  ℕ, ◌-◌, Bool, true, false, ◌==◌, leb, has_bit, ◌||◌, List, [], ◌++◌, map, Option, none, some,
  if◌then◌else◌, take, replicate,
}
use toxsh.Memory.{Packet}

-- ENetPacketFlag
abbrev pub flag_reliable : ℕ
flag_reliable = 1

abbrev pub flag_unsequenced : ℕ
flag_unsequenced = 2

abbrev pub flag_unreliable_fragment : ℕ
flag_unreliable_fragment = 8

-- flags & ENET_PACKET_FLAG_NO_ALLOCATE
abbrev pub is_no_allocate : ℕ → Bool
is_no_allocate flags = has_bit flags 2

-- The results of the mallocs that a packet needs: its record, and its buffer.
pub record Allocation : Type 0 where
  pub packet : Bool
  pub buffer : Bool

-- What the buffer holds: a copy of the bytes that `given` points to, or nothing written yet.
pub filled : Option (List ℕ) → ℕ → List (Option ℕ)
filled none n = replicate n none
filled (some bytes) n = map some (take n bytes)

-- The bytes of the caller, taken over without a copy.
pub borrowed : Option (List ℕ) → List (Option ℕ)
borrowed none = []
borrowed (some bytes) = map some bytes

abbrev fresh : ℕ → ℕ → List (Option ℕ) → Packet
fresh flags n content = record {
  reference_count = 0;
  flags = flags;
  content = content;
  data_length = n;
}

-- enet_packet_create
unfoldable pub packet_create : Allocation → Option (List ℕ) → ℕ → ℕ → Option Packet
unfolding filled borrowed
packet_create alloc given data_length flags =
    if alloc.packet
    then (if is_no_allocate flags
        then some (fresh flags data_length (borrowed given))
        else if data_length == 0
        then some (fresh flags 0 [])
        else if alloc.buffer
        then some (fresh flags data_length (filled given data_length))
        else none)
    else none

-- enet_packet_resize. It copies `dataLength` bytes of the old buffer into a new one.
unfoldable pub packet_resize : Bool → Packet → ℕ → Bool × Packet
packet_resize alloc p data_length =
    if leb data_length p.data_length || is_no_allocate p.flags
    then (true, record p { data_length = data_length })
    else if alloc
    then (
      true,
      record p {
        content = take p.data_length p.content ++ replicate (data_length - p.data_length) none;
        data_length = data_length;
      },
    )
    else (false, p)
