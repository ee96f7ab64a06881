-- ===== src/Tests/Links.antt =====
-- A list of two nodes, 20 and 30, at 10.
use toxsh.Prelude.{◌≡◌, refl, [], ◌∷◌, some, arith}
use toxsh.Links.{Links, clear, insert, remove, move, size}
use toxsh.Links.Chains.{front, Holds, size-length}
use toxsh.Links.Changes.{clear-Holds, insert-Holds, remove-Holds}

-- Two nodes are appended to the list that was cleared.
abbrev nothing : Links
nothing = record { next = λ n. 0; previous = λ n. 0 }

abbrev one : Links
one = insert 10 20 (clear 10 nothing)

abbrev two : Links
two = insert 10 30 one

one-Holds : Holds one 10 (20 ∷ [])
unfolding front
one-Holds =
    insert-Holds (clear 10 nothing) 10 20 [] [] (clear-Holds nothing 10) ((λ e. ground arith), tt)

two-Holds : Holds two 10 (20 ∷ 30 ∷ [])
unfolding front
two-Holds =
    insert-Holds one 10 30 (20 ∷ []) [] one-Holds ((λ e. ground arith), ((λ e. ground arith), tt))

insert-Holds_example : Holds two 10 (20 ∷ 30 ∷ [])
unfolding front
insert-Holds_example =
    insert-Holds one 10 30 (20 ∷ []) [] one-Holds ((λ e. ground arith), ((λ e. ground arith), tt))

remove-Holds_example : Holds (remove 20 two) 10 (30 ∷ [])
remove-Holds_example = remove-Holds two 10 20 [] (30 ∷ []) two-Holds

size-length_example : size 2 two 10 ≡ some 2
size-length_example = size-length two 10 (20 ∷ 30 ∷ []) two-Holds

-- The second node is moved to the front.
moved_first : (move 20 30 30 two).next 10 ≡ 30
unfolding move insert clear
moved_first = refl
