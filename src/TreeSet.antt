-- ===== src/TreeSet.antt =====
-- libs/collections/src/treeset.c: a set as a search tree over the hashes of its elements. Each
-- function is the part of the C function between its lock and its unlock.
pub mod Order
pub mod Remove
mod Tests
use okto_wsd.Base.{
  ℕ, zero, suc, ◌+◌, ◌*◌, List, [], ◌∷◌, Bool, true, false, Option, none, some, ◌==◌, ltb, take,
}
use okto_wsd.Base.Int.{ℤ, pos, negsuc}
use okto_wsd.Base.Word.{u32}

-- `TreeSetNode`; a null pointer is a leaf. The value is what the pointer leads to, as it is.
pub data Tree (A : Type 0) : Type 0 where
  leaf : Tree A
  node : (left right : Tree A) (hash size : ℕ) (value : A) → Tree A

pub record TreeSet (A : Type 0) : Type 0 where
  pub root : Tree A
  pub size : ℕ
  pub sync : Bool

-- The loop of `_TreeSet_hash`, over the bytes of the value.
unfoldable pub hash_from : ℕ → List ℕ → ℕ
hash_from h [] = h
hash_from h (b ∷ bs) = hash_from (u32 (31 * h + b)) bs

unfoldable pub hash : List ℕ → ℕ → ℕ
unfolding hash_from
hash bytes size = hash_from 0 (take size bytes)

-- The variables of the loop of `TreeSet_remove`.
pub record Removal (A : Type 0) : Type 0 where
  pub cnode : Tree A
  pub parent : Option (Tree A)
  pub side : ℤ

module _ {A : Type 0} where
  abbrev pub new_tree_set : Bool → TreeSet A
  new_tree_set sync = record { root = leaf; size = 0; sync = sync }

  -- The walk of `TreeSet_put` from `cnode` down.
  unfoldable pub put_at : (hash size : ℕ) → A → Tree A → Tree A
  put_at h size value leaf = node leaf leaf h size value
  put_at h size value (node left right k s v) = elim (k == h) [
    | true ↦ node left right k size value
    | false ↦ elim (ltb h k) [
      | true ↦ node (put_at h size value left) right k s v
      | false ↦ node left (put_at h size value right) k s v
    ]
  ]

  -- The value with its bytes.
  unfoldable pub put : List ℕ → ℕ → A → TreeSet A → Bool × TreeSet A
  unfolding hash put_at
  put bytes size value set = (
    true,
    record set { root = put_at (hash bytes size) size value set.root; size = u32 (set.size + 1) },
  )

  abbrev pub set_side : ℤ → Tree A → Tree A → Tree A
  set_side side child leaf = leaf
  set_side (pos zero) child (node left right k s v) = node left right k s v
  set_side (pos (suc n)) child (node left right k s v) = node left child k s v
  set_side (negsuc n) child (node left right k s v) = node child right k s v

  -- What stands in a node's place when it goes; with two children nothing is done.
  abbrev pub only_child : Tree A → Option (Tree A)
  only_child leaf = none
  only_child (node leaf leaf k s v) = some leaf
  only_child (node leaf (node l r j t w) k s v) = some (node l r j t w)
  only_child (node (node l r j t w) leaf k s v) = some (node l r j t w)
  only_child (node (node l r j t w) (node l' r' j' t' w') k s v) = none

  -- One round of the loop.
  unfoldable pub remove_round : Removal A → Removal A
  remove_round s = elim s.parent [
    | none ↦ s
    | some p ↦ elim (only_child s.cnode) [
      | none ↦ s
      | some child ↦ record s { parent = some (set_side s.side child p) }
    ]
  ]

  -- `while(1)` without a way out: no result when the fuel runs out.
  unfoldable pub remove_loop : ℕ → Removal A → Option Bool
  unfolding remove_round
  remove_loop zero s = none
  remove_loop (suc fuel) s = remove_loop fuel (remove_round s)

  unfoldable pub remove : ℕ → List ℕ → ℕ → TreeSet A → Option Bool
  unfolding remove_loop
  remove fuel bytes size set = elim set.root [
    | leaf ↦ some false
    | node left right k s v ↦
        remove_loop fuel (record { cnode = node left right k s v; parent = none; side = pos 0 })
  ]
