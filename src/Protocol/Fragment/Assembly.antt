-- ===== src/Protocol/Fragment/Assembly.antt =====
-- A packet from its fragments: the bytes that have come stand at their places, and nothing else is
-- written, in whatever order and however often the fragments come.
use mathlib.Core.List.{append_assoc}
use toxsh.Prelude.{
  ℕ, zero, suc, ◌+◌, ◌<◌, ◌≡◌, refl, sym, ap, ap₂, ◌∙◌, Bool, true, false, List, [], ◌∷◌, ◌++◌, map,
  Option, none, some, if◌then◌else◌, set, get_or, take, drop, length, replicate, arith,
  length-replicate,
}
use toxsh.Protocol.Fragment.{copy_to}

-- The bytes of a message that is cut in `chunks`.
abbrev pub joined : List (List ℕ) → List ℕ
joined [] = []
joined (ch ∷ chs) = ch ++ joined chs

-- Where chunk `k` begins.
abbrev pub offset_of : List (List ℕ) → ℕ → ℕ
offset_of [] k = 0
offset_of (ch ∷ chs) zero = 0
offset_of (ch ∷ chs) (suc k) = length ch + offset_of chs k

-- What a receiver holds of the message when the chunks with their bit set have come.
abbrev pub assembled : List Bool → List (List ℕ) → List (Option ℕ)
assembled [] chs = []
assembled (b ∷ bs) [] = []
assembled (b ∷ bs) (ch ∷ chs) =
    (if b then map some ch else replicate (length ch) none) ++ assembled bs chs

-- How many bits are not set.
abbrev pub unset : List Bool → ℕ
unset [] = 0
unset (true ∷ bs) = unset bs
unset (false ∷ bs) = suc (unset bs)

length-map-some : (xs : List ℕ) → length (map some xs) ≡ length xs
length-map-some [] = refl
length-map-some (x ∷ xs) = ap suc (length-map-some xs)

module _ {ℓ} {A : Type ℓ} where
  pub take-append_self : (xs ys : List A) → take (length xs) (xs ++ ys) ≡ xs
  take-append_self [] ys = refl
  take-append_self (x ∷ xs) ys = ap (◌∷◌ x) (take-append_self xs ys)

  pub drop-append_self : (xs ys : List A) → drop (length xs) (xs ++ ys) ≡ ys
  drop-append_self [] ys = refl
  drop-append_self (x ∷ xs) ys = drop-append_self xs ys

  take-append : (xs ys : List A) (n : ℕ) → take (length xs + n) (xs ++ ys) ≡ xs ++ take n ys
  take-append [] ys n = ap (λ k. take k ys) (omega arith)
  take-append (x ∷ xs) ys n =
      ap (λ k. take k (x ∷ (xs ++ ys))) {y = suc (length xs + n)} (omega arith)
      ∙ ap (◌∷◌ x) (take-append xs ys n)

  pub drop-append : (xs ys : List A) (n : ℕ) → drop (length xs + n) (xs ++ ys) ≡ drop n ys
  drop-append [] ys n = ap (λ k. drop k ys) (omega arith)
  drop-append (x ∷ xs) ys n =
      ap (λ k. drop k (x ∷ (xs ++ ys))) {y = suc (length xs + n)} (omega arith)
      ∙ drop-append xs ys n

  -- A write over the front, and one behind the front.
  copy_to-front :
      (new old rest : List A) → length new ≡ length old → copy_to 0 new (old ++ rest) ≡ new ++ rest
  unfolding copy_to
  copy_to-front new old rest e =
      ap (λ k. new ++ drop k (old ++ rest)) (omega arith)
      ∙ ap (◌++◌ new) (drop-append_self old rest)

  copy_to-behind :
      (n : ℕ) (new front rest : List A)
      → copy_to (length front + n) new (front ++ rest) ≡ front ++ copy_to n new rest
  unfolding copy_to
  copy_to-behind n new front rest =
      ap₂ (λ a b. a ++ (new ++ b)) (take-append front rest n)
        (ap (λ k. drop k (front ++ rest)) {y = length front + (n + length new)} (omega arith)
          ∙ drop-append front rest (n + length new))
      ∙ append_assoc front (take n rest) _

-- The receiver's buffer with the bytes of chunk `k` in their place.
abbrev pub chunk_at : List (List ℕ) → ℕ → List ℕ
chunk_at [] k = []
chunk_at (ch ∷ chs) zero = ch
chunk_at (ch ∷ chs) (suc k) = chunk_at chs k

block_length :
    (b : Bool) (ch : List ℕ)
    → length (if b then map some ch else replicate (length ch) none) ≡ length ch
block_length true ch = length-map-some ch
block_length false ch = length-replicate (length ch) none

pub copy_to-assembled :
    (bs : List Bool) (chs : List (List ℕ)) (k : ℕ)
    → length bs ≡ length chs
    → k < length chs
    → copy_to (offset_of chs k) (map some (chunk_at chs k)) (assembled bs chs)
      ≡ assembled (set bs k true) chs
copy_to-assembled bs [] k e h = absurd (omega arith)
copy_to-assembled [] (ch ∷ chs) k e h = absurd (omega arith)
copy_to-assembled (b ∷ bs) (ch ∷ chs) zero e h =
    copy_to-front (map some ch) (if b then map some ch else replicate (length ch) none)
      (assembled bs chs) (length-map-some ch ∙ sym (block_length b ch))
copy_to-assembled (b ∷ bs) (ch ∷ chs) (suc k) e h =
    let block = if b then map some ch else replicate (length ch) none in
    ap (λ n. copy_to (n + offset_of chs k) (map some (chunk_at chs k)) (block ++ assembled bs chs))
      (sym (block_length b ch))
    ∙ copy_to-behind (offset_of chs k) (map some (chunk_at chs k)) block (assembled bs chs)
    ∙ ap (◌++◌ block) (copy_to-assembled bs chs k (omega arith) (omega arith))

pub unset-set :
    (bs : List Bool) (k : ℕ)
    → k < length bs
    → get_or bs k false ≡ false
    → unset (set bs k true) + 1 ≡ unset bs
unset-set [] k h e = absurd (omega arith)
unset-set (true ∷ bs) zero h e = cc
unset-set (false ∷ bs) zero h e = omega arith
unset-set (true ∷ bs) (suc k) h e = unset-set bs k (omega arith) e
unset-set (false ∷ bs) (suc k) h e = omega (arith, unset-set bs k (omega arith) e)

map-some-append : (xs ys : List ℕ) → map some (xs ++ ys) ≡ map some xs ++ map some ys
map-some-append [] ys = refl
map-some-append (x ∷ xs) ys = ap (◌∷◌ (some x)) (map-some-append xs ys)

-- With every bit set it is the message.
pub assembled_all :
    (bs : List Bool) (chs : List (List ℕ))
    → length bs ≡ length chs
    → unset bs ≡ 0
    → assembled bs chs ≡ map some (joined chs)
assembled_all [] [] e h = refl
assembled_all [] (ch ∷ chs) e h = absurd (omega arith)
assembled_all (b ∷ bs) [] e h = absurd (omega arith)
assembled_all (false ∷ bs) (ch ∷ chs) e h = absurd (omega arith)
assembled_all (true ∷ bs) (ch ∷ chs) e h =
    ap (◌++◌ (map some ch)) (assembled_all bs chs (omega arith) h)
    ∙ sym (map-some-append ch (joined chs))
