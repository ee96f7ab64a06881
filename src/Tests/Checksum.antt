-- ===== src/Tests/Checksum.antt =====
-- The check value of the CRC-32, of the digits 1 to 9, with its bytes swapped.
use toxsh.Prelude.{◌≡◌, ◌-◌, refl, [], ◌∷◌, arith}
use toxsh.Packet.Checksum.{crc32, joined, swap_bytes}
use toxsh.Packet.Reference.{low_bytes, crc32-low_bytes}

check_value : crc32 ((49 ∷ 50 ∷ 51 ∷ 52 ∷ 53 ∷ 54 ∷ 55 ∷ 56 ∷ 57 ∷ []) ∷ []) ≡ 0x2639f4cb
unfolding crc32
check_value = refl

crc32-low_bytes_example :
    crc32 ((49 ∷ 50 ∷ []) ∷ [] ∷ (51 ∷ []) ∷ [])
    ≡ swap_bytes (4294967295 - low_bytes 4294967295 (49 ∷ 50 ∷ 51 ∷ []))
unfolding joined
crc32-low_bytes_example =
    crc32-low_bytes ((49 ∷ 50 ∷ []) ∷ [] ∷ (51 ∷ []) ∷ [])
      (omega arith, (omega arith, (omega arith, tt)))
