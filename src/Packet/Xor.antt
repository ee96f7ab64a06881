-- ===== src/Packet/Xor.antt =====
-- Laws of the exclusive or of toxtun/packet.c, and of a division that takes the low bit first.
use Prim.Native.Nat.{digits, differ, bit_xor-bitwise}
use toxsh.Prelude.{
  ℕ, zero, suc, ◌+◌, ◌*◌, ◌/◌, ◌%◌, ◌^◌, ◌≤◌, ◌<◌, ◌≡◌, ◌∙◌, refl, sym, ap, ap₂, bit_xor, arith,
}

abbrev xor_digits : ℕ → ℕ → ℕ → ℕ
xor_digits n a b = digits (λ b. b) differ n a b

xor_digits-enough : (n m a b : ℕ) → a ≤ n → a ≤ m → xor_digits n a b ≡ xor_digits m a b
xor_digits-enough n m zero b h h' = at_zero n m
  where
    at_zero : (n m : ℕ) → xor_digits n 0 b ≡ xor_digits m 0 b
    at_zero zero zero = refl
    at_zero zero (suc m) = refl
    at_zero (suc n) zero = refl
    at_zero (suc n) (suc m) = refl
xor_digits-enough zero m (suc a) b h h' = absurd (omega arith)
xor_digits-enough (suc n) zero (suc a) b h h' = absurd (omega arith)
xor_digits-enough (suc n) (suc m) (suc a) b h h' =
    ap (λ k. k * 2 + differ (suc a % 2) (b % 2))
      (xor_digits-enough n m (suc a / 2) (b / 2) (omega arith) (omega arith))

as_digits : (a b : ℕ) → bit_xor a b ≡ xor_digits a a b
as_digits a b = λ i. bit_xor-bitwise a b i

pub zero-xor : (b : ℕ) → bit_xor 0 b ≡ b
zero-xor b = as_digits 0 b

differ-zero : (b : ℕ) → differ 0 b ≡ b
differ-zero b = refl

-- The law for the lowest digit.
pub xor_step : (a b : ℕ) → bit_xor a b ≡ bit_xor (a / 2) (b / 2) * 2 + differ (a % 2) (b % 2)
xor_step zero b = omega (arith, zero-xor b, zero-xor (b / 2))
xor_step (suc a) b =
    as_digits (suc a) b
    ∙ ap (λ k. k * 2 + differ (suc a % 2) (b % 2))
        (xor_digits-enough a (suc a / 2) (suc a / 2) (b / 2) (omega arith) (omega arith)
          ∙ sym (as_digits (suc a / 2) (b / 2)))

differ-low : (a b : ℕ) → differ (a % 2) (b % 2) < 2
differ-low a b = low (a % 2) (b % 2) (omega arith) (omega arith)
  where
    low : (x y : ℕ) → x < 2 → y < 2 → differ x y < 2
    low zero y h h' = h'
    low (suc zero) zero h h' = omega arith
    low (suc zero) (suc y) h h' = omega arith
    low (suc (suc x)) y h h' = absurd (omega arith)

pub half-xor : (a b : ℕ) → bit_xor a b / 2 ≡ bit_xor (a / 2) (b / 2)
half-xor a b = omega (arith, xor_step a b, differ-low a b)

pub low-xor : (a b : ℕ) → bit_xor a b % 2 ≡ differ (a % 2) (b % 2)
low-xor a b = omega (arith, xor_step a b, differ-low a b)

differ_comm : (x y : ℕ) → differ x y ≡ differ y x
differ_comm zero zero = refl
differ_comm zero (suc y) = refl
differ_comm (suc x) zero = refl
differ_comm (suc x) (suc y) = differ_comm x y

differ_assoc : (x y z : ℕ) → x < 2 → y < 2 → z < 2 → differ (differ x y) z ≡ differ x (differ y z)
differ_assoc zero y z h h' h'' = refl
differ_assoc (suc zero) zero z h h' h'' = refl
differ_assoc (suc zero) (suc zero) zero h h' h'' = refl
differ_assoc (suc zero) (suc zero) (suc zero) h h' h'' = refl
differ_assoc (suc zero) (suc zero) (suc (suc z)) h h' h'' = absurd (omega arith)
differ_assoc (suc zero) (suc (suc y)) z h h' h'' = absurd (omega arith)
differ_assoc (suc (suc x)) y z h h' h'' = absurd (omega arith)

xor_comm_from : (n a b : ℕ) → a ≤ n → b ≤ n → bit_xor a b ≡ bit_xor b a
xor_comm_from zero a b h h' =
    let e : a ≡ b = omega arith in ap (λ k. bit_xor k b) e ∙ ap (bit_xor b) (sym e)
xor_comm_from (suc n) a b h h' =
    xor_step a b
    ∙ ap₂ (λ k d. k * 2 + d) (xor_comm_from n (a / 2) (b / 2) (omega arith) (omega arith))
        (differ_comm (a % 2) (b % 2))
    ∙ sym (xor_step b a)

pub xor_comm : (a b : ℕ) → bit_xor a b ≡ bit_xor b a
xor_comm a b = xor_comm_from (a + b) a b (omega arith) (omega arith)

xor_assoc_from :
    (n a b c : ℕ) → a ≤ n → b ≤ n → c ≤ n → bit_xor (bit_xor a b) c ≡ bit_xor a (bit_xor b c)
xor_assoc_from zero a b c h h' h'' =
    let ea : a ≡ 0 = omega arith in
    ap (λ k. bit_xor (bit_xor k b) c) ea
    ∙ ap (λ k. bit_xor k c) (zero-xor b)
    ∙ sym (zero-xor (bit_xor b c))
    ∙ ap (λ k. bit_xor k (bit_xor b c)) (sym ea)
xor_assoc_from (suc n) a b c h h' h'' =
    xor_step (bit_xor a b) c
    ∙ ap₂ (λ k d. k * 2 + d)
        (ap (λ k. bit_xor k (c / 2)) (half-xor a b)
          ∙ xor_assoc_from n (a / 2) (b / 2) (c / 2) (omega arith) (omega arith) (omega arith)
          ∙ ap (bit_xor (a / 2)) (sym (half-xor b c)))
        (ap (λ k. differ k (c % 2)) (low-xor a b)
          ∙ differ_assoc (a % 2) (b % 2) (c % 2) (omega arith) (omega arith) (omega arith)
          ∙ ap (differ (a % 2)) (sym (low-xor b c)))
    ∙ sym (xor_step a (bit_xor b c))

pub xor_assoc : (a b c : ℕ) → bit_xor (bit_xor a b) c ≡ bit_xor a (bit_xor b c)
xor_assoc a b c = xor_assoc_from (a + b + c) a b c (omega arith) (omega arith) (omega arith)

pub xor-zero : (a : ℕ) → bit_xor a 0 ≡ a
xor-zero a = xor_comm a 0 ∙ zero-xor a

-- The halves of two pairs in another order.
pub xor_swap :
    (a b c d : ℕ) → bit_xor (bit_xor a b) (bit_xor c d) ≡ bit_xor (bit_xor a c) (bit_xor b d)
xor_swap a b c d =
    xor_assoc a b (bit_xor c d)
    ∙ ap (bit_xor a)
        (sym (xor_assoc b c d) ∙ ap (λ k. bit_xor k d) (xor_comm b c) ∙ xor_assoc c b d)
    ∙ sym (xor_assoc a c (bit_xor b d))

pub double_power : (k h : ℕ) → h * 2 ^ suc k ≡ h * 2 ^ k * 2
double_power k h = grind arith

-- Digits above the k-th and digits below do not meet.
pub xor_parts : (k h l : ℕ) → l < 2 ^ k → bit_xor (h * 2 ^ k) l ≡ h * 2 ^ k + l
xor_parts zero h l small =
    ap (bit_xor (h * 2 ^ 0)) {y = 0} (omega arith) ∙ xor-zero (h * 2 ^ 0) ∙ omega arith
xor_parts (suc k) h l small =
    let double : h * 2 ^ suc k ≡ h * 2 ^ k * 2 = double_power k h in
    let half : h * 2 ^ suc k / 2 ≡ h * 2 ^ k = omega (arith, double) in
    let even : h * 2 ^ suc k % 2 ≡ 0 = omega (arith, double) in
    xor_step (h * 2 ^ suc k) l
    ∙ ap₂ (λ m d. m * 2 + d)
        (ap (λ m. bit_xor m (l / 2)) half ∙ xor_parts k h (l / 2) (omega arith))
        (ap (λ d. differ d (l % 2)) even)
    ∙ omega (arith, double)
