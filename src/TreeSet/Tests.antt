-- ===== src/TreeSet/Tests.antt =====
-- Three puts, the last of which takes the place of the first, whose bytes have the same hash.
use okto_wsd.Base.{ℕ, ◌≡◌, List, [], ◌∷◌, true, none}
use okto_wsd.TreeSet.{TreeSet, new_tree_set, hash, remove, put}
use okto_wsd.TreeSet.Order.{inorder, IsSearch, put_all, put_all-sorted_all}
use okto_wsd.TreeSet.Remove.{first, rounds, remove_forever}

-- "Aa", "C" and "BB"
abbrev elems : List (List ℕ × (ℕ × ℕ))
elems = (b'A' ∷ b'a' ∷ [], (2, 1)) ∷ (b'C' ∷ [], (1, 2)) ∷ (b'B' ∷ b'B' ∷ [], (2, 3)) ∷ []

put_all-sorted_all_example :
    IsSearch (put_all elems (new_tree_set true)).root
    × (inorder (put_all elems (new_tree_set true)).root ≡ (67, (1, 2)) ∷ (2112, (2, 3)) ∷ [])
    × ((put_all elems (new_tree_set true)).size ≡ 3)
unfolding hash
put_all-sorted_all_example = put_all-sorted_all elems true

abbrev single : TreeSet ℕ
single = (put (b'C' ∷ []) 1 7 (new_tree_set true)).1

remove_forever_example :
    (rounds 100 (first single.root) ≡ first single.root) × (remove 100 (b'C' ∷ []) 1 single ≡ none)
unfolding put
remove_forever_example = remove_forever (b'C' ∷ []) 1 single 100
