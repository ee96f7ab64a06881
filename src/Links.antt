-- ===== src/Links.antt =====
-- toxtun/list.c and toxtun/enetinc/enet/list.h: lists as nodes in memory with links both ways. A list
-- is the address of its sentinel, from which the links lead around and back to it.
pub mod Chains
pub mod Changes
use toxsh.Prelude.{
  ℕ, zero, suc, ◌+◌, ◌==◌, ◌≡◌, ◌≢◌, Bool, List, [], ◌∷◌, Option, none, some, All, if◌then◌else◌,
}

-- The members of each ENetListNode, by its address.
pub record Links : Type 0 where
  pub next : ℕ → ℕ
  pub previous : ℕ → ℕ

unfoldable pub put_next : ℕ → ℕ → Links → Links
put_next a v h = record h { next = λ n. if n == a then v else h.next n }

unfoldable pub put_previous : ℕ → ℕ → Links → Links
put_previous a v h = record h { previous = λ n. if n == a then v else h.previous n }

-- enet_list_clear
unfoldable pub clear : ℕ → Links → Links
unfolding put_next put_previous
clear list h = put_previous list list (put_next list list h)

-- enet_list_insert
unfoldable pub insert : ℕ → ℕ → Links → Links
unfolding put_next put_previous
insert position node h =
    let h1 = put_previous node (h.previous position) h in
    let h2 = put_next node position h1 in
    put_previous position node (put_next (h2.previous node) node h2)

-- enet_list_remove
unfoldable pub remove : ℕ → Links → Links
unfolding put_next put_previous
remove position h =
    let h1 = put_next (h.previous position) (h.next position) h in
    put_previous (h1.next position) (h1.previous position) h1

-- enet_list_move, of the nodes from `first` to `last`
unfoldable pub move : ℕ → ℕ → ℕ → Links → Links
unfolding put_next put_previous
move position first last h =
    let h1 = put_next (h.previous first) (h.next last) h in
    let h2 = put_previous (h1.next last) (h1.previous first) h1 in
    let h3 = put_previous first (h2.previous position) h2 in
    let h4 = put_next last position h3 in
    put_previous position last (put_next (h4.previous first) first h4)

-- The loop of enet_list_size from a position on, `none` where the fuel runs out.
unfoldable pub size_from : ℕ → Links → ℕ → ℕ → Option ℕ
size_from zero h list position = if position == list then some 0 else none
size_from (suc fuel) h list position =
    let rest = size_from fuel h list (h.next position) in
    if position == list then some 0 else elim rest [ none ↦ none | some n ↦ some (suc n) ]

-- enet_list_size
unfoldable pub size : ℕ → Links → ℕ → Option ℕ
unfolding size_from
size fuel h list = size_from fuel h list (h.next list)

-- enet_list_empty
unfoldable pub is_empty : Links → ℕ → Bool
is_empty h list = h.next list == list
