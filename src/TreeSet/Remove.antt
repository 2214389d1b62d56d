-- ===== src/TreeSet/Remove.antt =====
-- Removing: it does not come to an end.
use okto_wsd.Base.{ℕ, zero, suc, ◌≡◌, refl, List, false, none, some}
use okto_wsd.Base.Int.{pos}
use okto_wsd.TreeSet.{Tree, leaf, node, TreeSet, Removal, remove, remove_loop, remove_round}

module _ {A : Type 0} where
  -- the variables before the loop
  abbrev pub first : Tree A → Removal A
  first root = record { cnode = root; parent = none; side = pos 0 }

  -- so many rounds
  abbrev pub rounds : ℕ → Removal A → Removal A
  rounds zero s = s
  rounds (suc n) s = rounds n (remove_round s)

  round_lem : (root : Tree A) → remove_round (first root) ≡ first root
  unfolding remove_round
  round_lem root = refl

  rounds_lem : (n : ℕ) (root : Tree A) → rounds n (first root) ≡ first root
  rounds_lem zero root = refl
  rounds_lem (suc n) root = rw (round_lem root) (rounds_lem n root)

  remove_loop_lem : (fuel : ℕ) (root : Tree A) → remove_loop fuel (first root) ≡ none
  unfolding remove_loop
  remove_loop_lem zero root = refl
  remove_loop_lem (suc fuel) root = rw (round_lem root) (remove_loop_lem fuel root)

  remove_root :
      (root : Tree A) (fuel : ℕ)
      → (elim root [
        | leaf ↦ some false
        | node l r h s v ↦ remove_loop fuel (first (node l r h s v))
      ])
        ≡ elim root [ leaf ↦ some false | node l r h s v ↦ none ]
  remove_root leaf fuel = refl
  remove_root (node l r h s v) fuel = remove_loop_lem fuel (node l r h s v)

  -- After any number of rounds of the loop of TreeSet_remove its variables are those before the loop:
  -- the root, no parent and no side, so that no node is reached and none is taken out. It returns
  -- false for the empty set; for any other it never returns, whatever is to be removed.
  pub remove_forever :
      (bytes : List ℕ) (size : ℕ) (set : TreeSet A) (n : ℕ)
      → (rounds n (first set.root) ≡ first set.root)
        × (remove n bytes size set ≡ elim set.root [ leaf ↦ some false | node l r h s v ↦ none ])
  unfolding remove
  remove_forever bytes size set n = (rounds_lem n set.root, remove_root set.root n)
