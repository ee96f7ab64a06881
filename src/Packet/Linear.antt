-- ===== src/Packet/Linear.antt =====
-- A division that takes the low bit first is linear under the exclusive or.
use Prim.Native.Nat.{differ}
use toxsh.Prelude.{
  ℕ, zero, suc, ◌*◌, ◌/◌, ◌%◌, ◌^◌, ◌<◌, ◌≡◌, ◌∙◌, refl, sym, ap, ap₂, ◌==◌, false, if◌then◌else◌,
  Bool-cases, inl, inr, bit_xor, arith,
}
use toxsh.Packet.Xor.{
  half-xor, low-xor, xor-zero, zero-xor, xor_swap, xor_parts, double_power, xor_assoc,
}

-- A round of the division: 0xEDB88320 is the polynomial, its bits in reverse.
unfoldable pub low_round : ℕ → ℕ
low_round crc = if crc % 2 == 1 then bit_xor (crc / 2) 0xedb88320 else crc / 2

unfoldable pub low_rounds : ℕ → ℕ → ℕ
unfolding low_round
low_rounds zero crc = crc
low_rounds (suc n) crc = low_rounds n (low_round crc)

-- What a round adds to the half, by the low bit.
pick : ℕ → ℕ
pick zero = 0
pick (suc n) = 0xedb88320

low_round-pick : (x : ℕ) → low_round x ≡ bit_xor (x / 2) (pick (x % 2))
unfolding low_round pick
low_round-pick x = elim (Bool-cases (x % 2 == 1)) [
  | inl odd ↦ rw odd (ap (bit_xor (x / 2)) (ap pick {x = 1} {y = x % 2} (ground arith)))
  | inr even ↦
      rw even
        (sym (xor-zero (x / 2)) ∙ ap (bit_xor (x / 2)) (ap pick {x = 0} {y = x % 2} (ground arith)))
]

pick-differ : (x y : ℕ) → x < 2 → y < 2 → pick (differ x y) ≡ bit_xor (pick x) (pick y)
unfolding pick
pick-differ zero y h h' = sym (zero-xor (pick y))
pick-differ (suc zero) zero h h' = refl
pick-differ (suc zero) (suc zero) h h' = refl
pick-differ (suc zero) (suc (suc y)) h h' = absurd (omega arith)
pick-differ (suc (suc x)) y h h' = absurd (omega arith)

low_round-xor : (a b : ℕ) → low_round (bit_xor a b) ≡ bit_xor (low_round a) (low_round b)
low_round-xor a b =
    low_round-pick (bit_xor a b)
    ∙ ap₂ bit_xor (half-xor a b)
        (ap pick (low-xor a b) ∙ pick-differ (a % 2) (b % 2) (omega arith) (omega arith))
    ∙ xor_swap (a / 2) (b / 2) (pick (a % 2)) (pick (b % 2))
    ∙ sym (ap₂ bit_xor (low_round-pick a) (low_round-pick b))

low_rounds-xor :
    (n a b : ℕ) → low_rounds n (bit_xor a b) ≡ bit_xor (low_rounds n a) (low_rounds n b)
unfolding low_rounds
low_rounds-xor zero a b = refl
low_rounds-xor (suc n) a b =
    ap (low_rounds n) (low_round-xor a b) ∙ low_rounds-xor n (low_round a) (low_round b)

low_rounds-high : (n h : ℕ) → low_rounds n (h * 2 ^ n) ≡ h
unfolding low_rounds low_round
low_rounds-high zero h = omega arith
low_rounds-high (suc n) h =
    let double : h * 2 ^ suc n ≡ h * 2 ^ n * 2 = double_power n h in
    let even : (h * 2 ^ suc n % 2 == 1) ≡ false = ground (arith, double) in
    let half : h * 2 ^ suc n / 2 ≡ h * 2 ^ n = omega (arith, double) in
    ap (low_rounds n) (rw (even, low_round) half) ∙ low_rounds-high n h

-- Eight rounds on a register to which a byte was added, by its lowest byte and the others.
pub low_rounds-byte :
    (crc byte : ℕ)
    → low_rounds 8 (bit_xor crc byte)
      ≡ bit_xor (crc / 256) (low_rounds 8 (bit_xor (crc % 256) byte))
low_rounds-byte crc byte =
    let h = crc / 256 in
    let l = crc % 256 in
    let parts : bit_xor (h * 2 ^ 8) l ≡ crc = xor_parts 8 h l (omega arith) ∙ omega arith in
    ap (λ x. low_rounds 8 (bit_xor x byte)) (sym parts)
    ∙ ap (low_rounds 8) (xor_assoc (h * 2 ^ 8) l byte)
    ∙ low_rounds-xor 8 (h * 2 ^ 8) (bit_xor l byte)
    ∙ ap (λ x. bit_xor x (low_rounds 8 (bit_xor l byte))) (low_rounds-high 8 h)
