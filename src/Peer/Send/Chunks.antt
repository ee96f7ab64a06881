-- ===== src/Peer/Send/Chunks.antt =====
-- Bytes in chunks of one length, the last one of what is left.
use toxsh.Prelude.{
  ℕ, zero, suc, ◌+◌, ◌-◌, ◌≤◌, ◌<◌, ◌≡◌, refl, sym, ap, ◌∙◌, List, [], ◌∷◌, ◌++◌, take, drop,
  length, ltb, Bool-cases, ◌/◌, inl, inr, ◌⊎◌, arith, length-take, length-drop,
}
use native.Mathlib.Nat.{div-eq_of_lt, div-eq-sub-div}
use toxsh.Protocol.Fragment.Assembly.{joined, offset_of, chunk_at, take-append_self, drop-append}

-- `xs` in chunks of `room`, the last one of what is left.
unfoldable pub chunked : ℕ → ℕ → List ℕ → List (List ℕ)
chunked zero room xs = []
chunked (suc fuel) room [] = []
chunked (suc fuel) room (x ∷ xs) = take room (x ∷ xs) ∷ chunked fuel room (drop room (x ∷ xs))

pub take-drop : (n : ℕ) (xs : List ℕ) → take n xs ++ drop n xs ≡ xs
take-drop zero xs = refl
take-drop (suc n) [] = refl
take-drop (suc n) (x ∷ xs) = ap (◌∷◌ x) (take-drop n xs)

pub joined-chunked :
    (fuel room : ℕ) (xs : List ℕ) → 0 < room → length xs ≤ fuel → joined (chunked fuel room xs) ≡ xs
unfolding chunked
joined-chunked zero room [] pos h = refl
joined-chunked zero room (x ∷ xs) pos h = absurd (omega arith)
joined-chunked (suc fuel) room [] pos h = refl
joined-chunked (suc fuel) room (x ∷ xs) pos h =
    ap (◌++◌ (take room (x ∷ xs)))
      (joined-chunked fuel room (drop room (x ∷ xs)) pos (omega (arith, length-drop room (x ∷ xs))))
    ∙ take-drop room (x ∷ xs)

-- Once nothing is left, the room makes no difference.
pub chunked-room :
    (fuel room size : ℕ) (ys : List ℕ)
    → (size ≡ room) ⊎ (length ys ≡ 0)
    → chunked fuel size ys ≡ chunked fuel room ys
unfolding chunked
chunked-room fuel room size ys (inl same) = ap (λ r. chunked fuel r ys) same
chunked-room zero room size ys (inr no_more) = refl
chunked-room (suc fuel) room size [] (inr no_more) = refl
chunked-room (suc fuel) room size (y ∷ ys) (inr no_more) = absurd (omega arith)

-- The bytes at the offset of a chunk begin with the chunk.
pub drop-joined :
    (chs : List (List ℕ)) (k : ℕ)
    → take (length (chunk_at chs k)) (drop (offset_of chs k) (joined chs)) ≡ chunk_at chs k
drop-joined [] k = refl
drop-joined (ch ∷ chs) zero = take-append_self ch (joined chs)
drop-joined (ch ∷ chs) (suc k) =
    ap (take (length (chunk_at chs k))) (drop-append ch (joined chs) (offset_of chs k))
    ∙ drop-joined chs k

pub chunk_at-length :
    (fuel room k : ℕ) (xs : List ℕ) → length (chunk_at (chunked fuel room xs) k) ≤ room
unfolding chunked
chunk_at-length zero room k xs = omega arith
chunk_at-length (suc fuel) room k [] = omega arith
chunk_at-length (suc fuel) room zero (x ∷ xs) = omega (arith, length-take room (x ∷ xs))
chunk_at-length (suc fuel) room (suc k) (x ∷ xs) = chunk_at-length fuel room k (drop room (x ∷ xs))

-- The number of chunks is the quotient, rounded up.
pub chunked-length :
    (fuel room : ℕ) (xs : List ℕ)
    → 0 < room
    → length xs ≤ fuel
    → length (chunked fuel room xs) ≡ (length xs + room - 1) / room
unfolding chunked
chunked-length zero room [] pos h = sym (div-eq_of_lt {n = 0 + room - 1} {m = room} (omega arith))
chunked-length zero room (x ∷ xs) pos h = absurd (omega arith)
chunked-length (suc fuel) room [] pos h =
    sym (div-eq_of_lt {n = 0 + room - 1} {m = room} (omega arith))
chunked-length (suc fuel) room (x ∷ xs) pos h =
    let n = length xs in
    let ih =
      chunked-length fuel room (drop room (x ∷ xs)) pos
        (omega (arith, length-drop room (x ∷ xs))) in
    let left = length-drop room (x ∷ xs) in
    let whole : (suc n + room - 1) / room ≡ (suc n + room - 1 - room) / room + 1 =
      div-eq-sub-div {m = room} {n = suc n + room - 1} pos (omega arith) in
    let rest : length (chunked fuel room (drop room (x ∷ xs))) ≡ n / room =
      elim (Bool-cases (ltb n room)) [
        | inl short ↦
            ih
            ∙ ap (λ k. (k + room - 1) / room) {y = 0} (ground (arith, left))
            ∙ div-eq_of_lt {n = 0 + room - 1} {m = room} (omega arith)
            ∙ sym (div-eq_of_lt {n = n} {m = room} (ground arith))
        | inr long ↦ ih ∙ ap (λ k. k / room) {y = n} (ground (arith, left))
      ] in
    let shift : (suc n + room - 1 - room) / room ≡ n / room =
      ap (λ k. k / room) {y = n} (omega arith) in
    omega (arith, rest, whole, shift)

pub take_twice : (n : ℕ) (xs : List ℕ) → take n (take n xs) ≡ take n xs
take_twice zero xs = refl
take_twice (suc n) [] = refl
take_twice (suc n) (x ∷ xs) = ap (◌∷◌ x) (take_twice n xs)

pub drop-none : (n : ℕ) → drop {A = ℕ} n [] ≡ []
drop-none zero = refl
drop-none (suc n) = refl

pub drop-drop : (o n : ℕ) (xs : List ℕ) → drop (o + n) xs ≡ drop n (drop o xs)
drop-drop zero n xs = ap (λ k. drop k xs) (omega arith)
drop-drop (suc o) n [] = ap (λ k. drop k []) {y = suc (o + n)} (omega arith) ∙ sym (drop-none n)
drop-drop (suc o) n (x ∷ xs) =
    ap (λ k. drop k (x ∷ xs)) {y = suc (o + n)} (omega arith) ∙ drop-drop o n xs
