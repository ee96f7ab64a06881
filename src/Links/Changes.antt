-- ===== src/Links/Changes.antt =====
-- toxtun/list.c: what insertion and removal do to the sequence of nodes.
use toxsh.Prelude.{ℕ, ◌≡◌, ◌≢◌, ◌∙◌, sym, subst, List, [], ◌∷◌, ◌++◌, All-append, arith}
use toxsh.Links.{Links, put_next, put_previous, clear, insert, remove}
use toxsh.Links.Chains.{
  Chain, Apart, Distinct, Holds, front, back, Chain-back, Apart-back, Apart-front, Apart-split,
  Chain-frame,
}

-- Node `d` between `q` and `p`.
record Inserted (h h' : Links) (p q d : ℕ) : Type 0 where
  next_before : h'.next q ≡ d
  next_node : h'.next d ≡ p
  previous_behind : h'.previous p ≡ d
  previous_node : h'.previous d ≡ q
  next_others : (n : ℕ) → n ≢ q → n ≢ d → h'.next n ≡ h.next n
  previous_others : (n : ℕ) → n ≢ p → n ≢ d → h'.previous n ≡ h.previous n

insert-Inserted :
    (h : Links) (p d : ℕ) → d ≢ p → d ≢ h.previous p → Inserted h (insert p d h) p (h.previous p) d
unfolding insert put_next put_previous
insert-Inserted h p d dp dq = record {
  next_before = ground arith;
  next_node = ground arith;
  previous_behind = ground arith;
  previous_node = ground arith;
  next_others = λ n nq nd. ground arith;
  previous_others = λ n np nd. ground arith;
}

Inserted-Chain :
    (h h' : Links) (d a : ℕ) (xs ys : List ℕ) (b : ℕ)
    → Inserted h h' (front ys b) (back a xs) d
    → Chain h a (xs ++ ys) b
    → Distinct (a ∷ (xs ++ ys))
    → Apart d (a ∷ (xs ++ ys))
    → Apart b (xs ++ ys)
    → d ≢ b
    → Chain h' a (xs ++ d ∷ ys) b
unfolding Chain front back Distinct
Inserted-Chain h h' d a [] [] b i c distinct ds bs db =
    (i.next_before, i.previous_node, (i.next_node, i.previous_behind))
Inserted-Chain h h' d a [] (y ∷ ys) b i c distinct ds bs db = (
  i.next_before,
  i.previous_node,
  (
    i.next_node,
    i.previous_behind,
    Chain-frame h h' y a d i.next_others i.previous_others y ys b distinct.0 ds.1 distinct.1.0
        (λ e. bs.0 (sym e)) db c.2,
  ),
)
Inserted-Chain h h' d a (x ∷ xs) ys b i c distinct ds bs db =
    let (left, right) = Apart-split x xs ys distinct.1.0 in
    let before = Apart-split a xs ys distinct.0.1 in
    (
      i.next_others a (Apart-back a x xs distinct.0.0 before.0) (λ e. ds.0 (sym e)) ∙ c.0,
      i.previous_others x (Apart-front x b ys (λ e. bs.0 (sym e)) right) (λ e. ds.1.0 (sym e))
          ∙ c.1,
      Inserted-Chain h h' d x xs ys b i c.2 distinct.1 ds.1 bs.1 db,
    )

-- A sequence of distinct nodes with a new one.
Distinct-insert :
    (d : ℕ) (xs ys : List ℕ) → Distinct (xs ++ ys) → Apart d (xs ++ ys) → Distinct (xs ++ d ∷ ys)
unfolding Distinct
Distinct-insert d [] ys distinct ds = (ds, distinct)
Distinct-insert d (x ∷ xs) ys distinct ds =
    let (left, right) = Apart-split x xs ys distinct.0 in
    (
      All-append (λ n. x ≢ n) xs (d ∷ ys) left ((λ e. ds.0 (sym e)), right),
      Distinct-insert d xs ys distinct.1 ds.1,
    )

-- enet_list_insert puts a node that is in no list in front of its position, which is a node of the list
-- or, to append, the list itself: what the list holds before the position and from it on stays.
pub insert-Holds :
    (h : Links) (list d : ℕ) (xs ys : List ℕ)
    → Holds h list (xs ++ ys)
    → Apart d (list ∷ (xs ++ ys))
    → Holds (insert (front ys list) d h) list (xs ++ d ∷ ys)
unfolding Distinct
insert-Holds h list d xs ys held ds =
    let (left, right) = Apart-split d xs ys ds.1 in
    let (before, behind) = Apart-split list xs ys held.distinct.0 in
    let around = Chain-back h list xs ys list held.chain in
    let dp = Apart-front d list ys ds.0 right in
    let dq = Apart-back d list xs ds.0 left in
    let new = insert-Inserted h (front ys list) d dp (λ e. dq (e ∙ around)) in
    record {
      chain =
          Inserted-Chain h _ d list xs ys list
            (subst (λ q. Inserted h (insert (front ys list) d h) (front ys list) q d) around new)
            held.chain held.distinct ds held.distinct.0 ds.0;
      distinct = (
        All-append (λ n. list ≢ n) xs (d ∷ ys) before ((λ e. ds.0 (sym e)), behind),
        Distinct-insert d xs ys held.distinct.1 ds.1,
      );
    }

-- The links around a node, without it.
record Removed (h h' : Links) (p q : ℕ) : Type 0 where
  next_before : h'.next q ≡ p
  previous_behind : h'.previous p ≡ q
  next_others : (n : ℕ) → n ≢ q → h'.next n ≡ h.next n
  previous_others : (n : ℕ) → n ≢ p → h'.previous n ≡ h.previous n

remove-Removed :
    (h : Links) (d : ℕ) → d ≢ h.previous d → Removed h (remove d h) (h.next d) (h.previous d)
unfolding remove put_next put_previous
remove-Removed h d dq = record {
  next_before = ground arith;
  previous_behind = ground arith;
  next_others = λ n nq. ground arith;
  previous_others = λ n np. ground arith;
}

-- The node behind a place in a chain.
Chain-front : (h : Links) (a : ℕ) (xs : List ℕ) (b : ℕ) → Chain h a xs b → h.next a ≡ front xs b
unfolding Chain front
Chain-front h a [] b c = c.0
Chain-front h a (x ∷ xs) b c = c.0

Chain-split :
    (h : Links) (a : ℕ) (xs : List ℕ) (d : ℕ) (ys : List ℕ) (b : ℕ)
    → Chain h a (xs ++ d ∷ ys) b
    → (h.previous d ≡ back a xs) × Chain h d ys b
unfolding Chain back
Chain-split h a [] d ys b c = (c.1, c.2)
Chain-split h a (x ∷ xs) d ys b c = Chain-split h x xs d ys b c.2

Removed-Chain :
    (h h' : Links) (d a : ℕ) (xs ys : List ℕ) (b : ℕ)
    → Removed h h' (front ys b) (back a xs)
    → Chain h a (xs ++ d ∷ ys) b
    → Distinct (a ∷ (xs ++ ys))
    → Apart d (xs ++ ys)
    → Apart b (xs ++ ys)
    → d ≢ b
    → Chain h' a (xs ++ ys) b
unfolding Chain front back Distinct
Removed-Chain h h' d a [] [] b r c distinct ds bs db = (r.next_before, r.previous_behind)
Removed-Chain h h' d a [] (y ∷ ys) b r c distinct ds bs db = (
  r.next_before,
  r.previous_behind,
  Chain-frame h h' y a d (λ n nq nd. r.next_others n nq) (λ n np nd. r.previous_others n np) y ys b
      distinct.0 ds distinct.1.0 (λ e. bs.0 (sym e)) db c.2.2,
)
Removed-Chain h h' d a (x ∷ xs) ys b r c distinct ds bs db =
    let (left, right) = Apart-split x xs ys distinct.1.0 in
    let before = Apart-split a xs ys distinct.0.1 in
    (
      r.next_others a (Apart-back a x xs distinct.0.0 before.0) ∙ c.0,
      r.previous_others x (Apart-front x b ys (λ e. bs.0 (sym e)) right) ∙ c.1,
      Removed-Chain h h' d x xs ys b r c.2 distinct.1 ds.1 bs.1 db,
    )

Apart-join : (n d : ℕ) (xs ys : List ℕ) → Apart n (xs ++ d ∷ ys) → (n ≢ d) × Apart n (xs ++ ys)
Apart-join n d [] ys h = h
Apart-join n d (x ∷ xs) ys h = let (apart, rest) = Apart-join n d xs ys h.1 in (apart, (h.0, rest))

Distinct-remove :
    (d : ℕ) (xs ys : List ℕ) → Distinct (xs ++ d ∷ ys) → Distinct (xs ++ ys) × Apart d (xs ++ ys)
unfolding Distinct
Distinct-remove d [] ys h = (h.1, h.0)
Distinct-remove d (x ∷ xs) ys h =
    let (apart, xs_apart) = Apart-join x d xs ys h.0 in
    let (rest, d_apart) = Distinct-remove d xs ys h.1 in
    ((xs_apart, rest), ((λ e. apart (sym e)), d_apart))

-- enet_list_remove takes a node from the list that holds it: the list holds the others, in their order.
pub remove-Holds :
    (h : Links) (list d : ℕ) (xs ys : List ℕ)
    → Holds h list (xs ++ d ∷ ys)
    → Holds (remove d h) list (xs ++ ys)
unfolding Distinct
remove-Holds h list d xs ys held =
    let (before, behind) = Chain-split h list xs d ys list held.chain in
    let (apart, others) = Apart-join list d xs ys held.distinct.0 in
    let (distinct, d_apart) = Distinct-remove d xs ys held.distinct.1 in
    let db : d ≢ list = λ e. apart (sym e) in
    let dq = Apart-back d list xs db (Apart-split d xs ys d_apart).0 in
    let r = remove-Removed h d (λ e. dq (e ∙ before)) in
    let r' : Removed h (remove d h) (front ys list) (back list xs) =
      subst (λ p. Removed h (remove d h) p (back list xs)) (Chain-front h d ys list behind)
        (subst (Removed h (remove d h) (h.next d)) before r) in
    record {
      chain =
          Removed-Chain h (remove d h) d list xs ys list r' held.chain (others, distinct) d_apart
            others db;
      distinct = (others, distinct);
    }

-- enet_list_clear makes an empty list.
pub clear-Holds : (h : Links) (list : ℕ) → Holds (clear list h) list []
unfolding clear put_next put_previous Chain Distinct
clear-Holds h list = record { chain = (ground arith, ground arith); distinct = (tt, tt) }
