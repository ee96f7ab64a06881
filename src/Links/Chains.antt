-- ===== src/Links/Chains.antt =====
-- toxtun/list.c: which sequence of nodes a list stands for.
use toxsh.Prelude.{
  ℕ, zero, suc, ◌≤◌, ◌==◌, ◌≡◌, ◌≢◌, ◌∙◌, refl, sym, List, [], ◌∷◌, ◌++◌, some, All, length, true,
  false, arith,
}
use toxsh.Links.{Links, size_from, size}

-- Links both ways from `a` over `xs` to `b`.
unfoldable pub Chain : Links → ℕ → List ℕ → ℕ → Type 0
Chain h a [] b = (h.next a ≡ b) × (h.previous b ≡ a)
Chain h a (x ∷ xs) b = (h.next a ≡ x) × (h.previous x ≡ a) × Chain h x xs b

abbrev pub Apart : ℕ → List ℕ → Type 0
Apart n xs = All (λ x. n ≢ x) xs

unfoldable pub Distinct : List ℕ → Type 0
Distinct [] = Unit
Distinct (x ∷ xs) = Apart x xs × Distinct xs

-- The list at `list` holds the nodes `xs`, in this order.
pub record Holds (h : Links) (list : ℕ) (xs : List ℕ) : Type 0 where
  pub chain : Chain h list xs list
  pub distinct : Distinct (list ∷ xs)

-- The first node of `ys`, and `b` if there is none.
unfoldable pub front : List ℕ → ℕ → ℕ
front [] b = b
front (y ∷ ys) b = y

-- The last node of `xs`, and `a` if there is none.
unfoldable pub back : ℕ → List ℕ → ℕ
back a [] = a
back a (x ∷ xs) = back x xs

-- The nodes around a place in a chain.
pub Chain-back :
    (h : Links) (a : ℕ) (xs ys : List ℕ) (b : ℕ)
    → Chain h a (xs ++ ys) b
    → h.previous (front ys b) ≡ back a xs
unfolding Chain front back
Chain-back h a [] [] b c = c.1
Chain-back h a [] (y ∷ ys) b c = c.1
Chain-back h a (x ∷ xs) ys b c = Chain-back h x xs ys b c.2

pub Apart-back : (n a : ℕ) (xs : List ℕ) → n ≢ a → Apart n xs → n ≢ back a xs
unfolding back
Apart-back n a [] h hs = h
Apart-back n a (x ∷ xs) h hs = Apart-back n x xs hs.0 hs.1

pub Apart-front : (n b : ℕ) (xs : List ℕ) → n ≢ b → Apart n xs → n ≢ front xs b
unfolding front
Apart-front n b [] h hs = h
Apart-front n b (x ∷ xs) h hs = hs.0

pub Apart-split : (n : ℕ) (xs ys : List ℕ) → Apart n (xs ++ ys) → Apart n xs × Apart n ys
Apart-split n [] ys h = (tt, h)
Apart-split n (x ∷ xs) ys h = let (left, right) = Apart-split n xs ys h.1 in ((h.0, left), right)

-- A change elsewhere leaves a chain.
pub Chain-frame :
    (h h' : Links) (p q d : ℕ)
    → ((n : ℕ) → n ≢ q → n ≢ d → h'.next n ≡ h.next n)
    → ((n : ℕ) → n ≢ p → n ≢ d → h'.previous n ≡ h.previous n)
    → (a : ℕ) (xs : List ℕ) (b : ℕ) → Apart q (a ∷ xs)
    → Apart d (a ∷ xs)
    → Apart p xs
    → p ≢ b
    → d ≢ b
    → Chain h a xs b
    → Chain h' a xs b
unfolding Chain
Chain-frame h h' p q d next previous a [] b qs ds ps pb db c = (
  next a (λ e. qs.0 (sym e)) (λ e. ds.0 (sym e)) ∙ c.0,
  previous b (λ e. pb (sym e)) (λ e. db (sym e)) ∙ c.1,
)
Chain-frame h h' p q d next previous a (x ∷ xs) b qs ds ps pb db c = (
  next a (λ e. qs.0 (sym e)) (λ e. ds.0 (sym e)) ∙ c.0,
  previous x (λ e. ps.0 (sym e)) (λ e. ds.1.0 (sym e)) ∙ c.1,
  Chain-frame h h' p q d next previous x xs b qs.1 ds.1 ps.1 pb db c.2,
)

-- The loop of enet_list_size counts the nodes that are left.
size_from-length :
    (h : Links) (list fuel a : ℕ) (xs : List ℕ)
    → length xs ≤ fuel
    → Apart list xs
    → Chain h a xs list
    → size_from fuel h list (h.next a) ≡ some (length xs)
unfolding size_from Chain
size_from-length h list zero a [] enough apart c =
    let here : (h.next a == list) ≡ true = ground arith in rw (size_from, here) refl
size_from-length h list (suc fuel) a [] enough apart c =
    let here : (h.next a == list) ≡ true = ground arith in rw (size_from, here) refl
size_from-length h list zero a (x ∷ xs) enough apart c = absurd (omega arith)
size_from-length h list (suc fuel) a (x ∷ xs) enough apart c =
    let further : (x == list) ≡ false = ground arith in
    let rest = size_from-length h list fuel x xs (omega arith) apart.1 c.2 in
    rw (c.0, size_from, further, rest) refl

-- enet_list_size is the number of the nodes that the list holds; as many rounds are enough.
pub size-length :
    (h : Links) (list : ℕ) (xs : List ℕ)
    → Holds h list xs
    → size (length xs) h list ≡ some (length xs)
unfolding size Distinct
size-length h list xs held =
    size_from-length h list (length xs) list xs (omega arith) held.distinct.0 held.chain
