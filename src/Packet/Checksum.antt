-- ===== src/Packet/Checksum.antt =====
-- toxtun/packet.c: enet_crc32, with its table. A word of 32 bits is stored with its low byte first.
use toxsh.Prelude.{
  ℕ, zero, suc, ◌+◌, ◌-◌, ◌*◌, ◌/◌, ◌%◌, ◌^◌, ◌≡◌, ◌∙◌, refl, sym, ap, ◌==◌, List, [], ◌∷◌, ◌++◌,
  if◌then◌else◌, u32, has_bit, bit_or, bit_xor,
}

-- The loop of reflect_crc with `n` of its `bits` rounds to go.
unfoldable pub reflect_from : ℕ → ℕ → ℕ → ℕ → ℕ
reflect_from bits zero val result = result
reflect_from bits (suc n) val result =
    reflect_from bits n (val / 2) (if val % 2 == 1 then bit_or result (2 ^ n) else result)

-- reflect_crc
unfoldable pub reflect_crc : ℕ → ℕ → ℕ
unfolding reflect_from
reflect_crc val bits = reflect_from bits bits val 0

-- A round of the inner loop of initialize_crc32, and the loop.
unfoldable pub shift_crc : ℕ → ℕ
shift_crc crc = if has_bit crc 31 then bit_xor (u32 (crc * 2)) 0x04c11db7 else u32 (crc * 2)

unfoldable pub shift_times : ℕ → ℕ → ℕ
unfolding shift_crc
shift_times zero crc = crc
shift_times (suc n) crc = shift_times n (shift_crc crc)

-- `crcTable [byte]`
unfoldable pub crc_entry : ℕ → ℕ
unfolding reflect_crc shift_times
crc_entry byte = reflect_crc (shift_times 8 (u32 (reflect_crc byte 8 * 16777216))) 32

-- A round of the inner loop of enet_crc32, and the loop over the bytes of a buffer.
unfoldable pub crc_byte : ℕ → ℕ → ℕ
unfolding crc_entry
crc_byte crc byte = bit_xor (crc / 256) (crc_entry (bit_xor (crc % 256) byte))

unfoldable pub crc_bytes : ℕ → List ℕ → ℕ
unfolding crc_byte
crc_bytes crc [] = crc
crc_bytes crc (byte ∷ bytes) = crc_bytes (crc_byte crc byte) bytes

-- The outer loop, over the buffers.
unfoldable pub crc_buffers : ℕ → List (List ℕ) → ℕ
unfolding crc_bytes
crc_buffers crc [] = crc
crc_buffers crc (buffer ∷ buffers) = crc_buffers (crc_bytes crc buffer) buffers

-- ENET_HOST_TO_NET_32 on a machine that stores the low byte first.
unfoldable pub swap_bytes : ℕ → ℕ
swap_bytes n =
    n % 256 * 16777216 + n / 256 % 256 * 65536 + n / 65536 % 256 * 256 + n / 16777216 % 256

-- enet_crc32
unfoldable pub crc32 : List (List ℕ) → ℕ
unfolding crc_buffers swap_bytes
crc32 buffers = swap_bytes (4294967295 - crc_buffers 4294967295 buffers)

-- The bytes of all buffers.
unfoldable pub joined : List (List ℕ) → List ℕ
joined [] = []
joined (buffer ∷ buffers) = buffer ++ joined buffers

crc_bytes-append :
    (crc : ℕ) (xs ys : List ℕ) → crc_bytes crc (xs ++ ys) ≡ crc_bytes (crc_bytes crc xs) ys
unfolding crc_bytes
crc_bytes-append crc [] ys = refl
crc_bytes-append crc (x ∷ xs) ys = crc_bytes-append (crc_byte crc x) xs ys

crc_bytes-nothing : (crc : ℕ) → crc ≡ crc_bytes crc []
unfolding crc_bytes
crc_bytes-nothing crc = refl

crc_buffers-joined :
    (crc : ℕ) (buffers : List (List ℕ)) → crc_buffers crc buffers ≡ crc_bytes crc (joined buffers)
unfolding crc_buffers joined
crc_buffers-joined crc [] = crc_bytes-nothing crc
crc_buffers-joined crc (buffer ∷ buffers) =
    crc_buffers-joined (crc_bytes crc buffer) buffers
    ∙ sym (crc_bytes-append crc buffer (joined buffers))

-- The checksum that the sender takes of its buffers is the one that the receiver takes of the datagram
-- as one buffer.
pub crc32-joined : (buffers : List (List ℕ)) → crc32 buffers ≡ crc32 (joined buffers ∷ [])
unfolding crc32 crc_buffers
crc32-joined buffers =
    ap (λ crc. swap_bytes (4294967295 - crc)) (crc_buffers-joined 4294967295 buffers)
