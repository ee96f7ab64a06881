-- ===== src/Packet/Reference.antt =====
-- The table of toxtun/packet.c against the usual CRC-32, which takes the low bit first.
use toxsh.Prelude.{
  ℕ, zero, suc, ◌-◌, ◌^◌, ◌∙◌, ap, List, [], ◌∷◌, All, ◌/◌, ◌%◌, ◌<◌, ◌≡◌, refl, sym, subst, Bool,
  true, ◌==◌, ◌&&◌, bit_xor, arith, Bool-cases, inl, inr,
}
use toxsh.Packet.Linear.{low_rounds, low_rounds-byte}
use toxsh.Packet.Checksum.{
  crc_entry, crc_byte, crc_bytes, crc_buffers, crc32, crc32-joined, joined, swap_bytes,
}
use Prim.Native.Nat.{digits, differ, bit_xor-bitwise}

unfoldable agree_below : (ℕ → ℕ) → (ℕ → ℕ) → ℕ → Bool
agree_below f g zero = true
agree_below f g (suc n) = (f n == g n) && agree_below f g n

agree_below-each : (f g : ℕ → ℕ) (n k : ℕ) → agree_below f g n ≡ true → k < n → f k ≡ g k
unfolding agree_below
agree_below-each f g zero k h small = absurd (omega arith)
agree_below-each f g (suc n) k h small = elim (Bool-cases (k == n)) [
  | inl same ↦ let e : k ≡ n = ground arith in subst (λ j. f j ≡ g j) (sym e) (ground arith)
  | inr other ↦ agree_below-each f g n k (ground arith) (ground arith)
]

agree_256 : agree_below crc_entry (low_rounds 8) 256 ≡ true
unfolding agree_below crc_entry low_rounds
agree_256 = refl

-- Each entry of the table is what eight rounds with the low bit first make of the byte.
pub crc_entry-low_rounds : (byte : ℕ) → byte < 256 → crc_entry byte ≡ low_rounds 8 byte
crc_entry-low_rounds byte small = agree_below-each crc_entry (low_rounds 8) 256 byte agree_256 small

differ-below : (a b : ℕ) → a < 2 → b < 2 → differ a b < 2
differ-below zero b h h' = h'
differ-below (suc zero) zero h h' = omega arith
differ-below (suc zero) (suc b) h h' = omega arith
differ-below (suc (suc a)) b h h' = absurd (omega arith)

digits-below : (k n a b : ℕ) → a < 2 ^ k → b < 2 ^ k → digits (λ b. b) differ n a b < 2 ^ k
digits-below k zero a b h h' = h'
digits-below k (suc n) zero b h h' = h'
digits-below zero (suc n) (suc a) b h h' = absurd (omega arith)
digits-below (suc k) (suc n) (suc a) b h h' =
    let ih = digits-below k n (suc a / 2) (b / 2) (omega arith) (omega arith) in
    let low = differ-below (suc a % 2) (b % 2) (omega arith) (omega arith) in omega (arith, ih, low)

bit_xor-below : (k a b : ℕ) → a < 2 ^ k → b < 2 ^ k → bit_xor a b < 2 ^ k
bit_xor-below k a b h h' =
    subst (λ n. n < 2 ^ k) (sym (λ i. bit_xor-bitwise a b i)) (digits-below k a a b h h')

-- The register of the usual CRC-32 over bytes: each is added to it, and eight rounds follow.
unfoldable pub low_bytes : ℕ → List ℕ → ℕ
low_bytes crc [] = crc
low_bytes crc (byte ∷ bytes) = low_bytes (low_rounds 8 (bit_xor crc byte)) bytes

crc_byte-low_rounds :
    (crc byte : ℕ) → byte < 256 → crc_byte crc byte ≡ low_rounds 8 (bit_xor crc byte)
unfolding crc_byte
crc_byte-low_rounds crc byte small =
    let index = bit_xor-below 8 (crc % 256) byte (omega arith) small in
    ap (bit_xor (crc / 256)) (crc_entry-low_rounds (bit_xor (crc % 256) byte) index)
    ∙ sym (low_rounds-byte crc byte)

crc_bytes-low_bytes :
    (crc : ℕ) (bytes : List ℕ)
    → All (λ b. b < 256) bytes
    → crc_bytes crc bytes ≡ low_bytes crc bytes
unfolding crc_bytes low_bytes
crc_bytes-low_bytes crc [] small = refl
crc_bytes-low_bytes crc (byte ∷ bytes) small =
    crc_bytes-low_bytes (crc_byte crc byte) bytes small.1
    ∙ ap (λ c. low_bytes c bytes) (crc_byte-low_rounds crc byte small.0)

-- enet_crc32 of buffers of bytes is the usual CRC-32 of all their bytes, one behind the other: a
-- register that begins with 32 bits set, to which each byte is added by exclusive or, with eight
-- rounds of the division behind each, the low bit first, and the complement in the end, stored with
-- its high byte first. Its table, made with the high bit first, and the cuts between the buffers
-- make no difference.
pub crc32-low_bytes :
    (buffers : List (List ℕ))
    → All (λ b. b < 256) (joined buffers)
    → crc32 buffers ≡ swap_bytes (4294967295 - low_bytes 4294967295 (joined buffers))
unfolding crc32 crc_buffers
crc32-low_bytes buffers small =
    crc32-joined buffers
    ∙ ap (λ crc. swap_bytes (4294967295 - crc))
        (crc_bytes-low_bytes 4294967295 (joined buffers) small)
