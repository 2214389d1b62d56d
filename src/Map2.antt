-- ===== src/Map2.antt =====
-- libs/collections/src/map2.c over the linked list of list.c, as the list of its items from the
-- head on. The keys are C strings: lists of character codes.
pub mod Iterator
pub mod Laws
pub mod Nodes
pub mod Loops
pub mod Calls
mod Tests
use okto_wsd.Base.{
  ℕ, zero, suc, ◌+◌, List, [], ◌∷◌, Bool, true, false, Option, none, some, if◌then◌else◌, ◌==◌,
}
use okto_wsd.Base.Word.{u16}

abbrev pub Key : Type 0
Key = List ℕ

-- `strcmp(a, b) == 0`
abbrev pub str_eq : Key → Key → Bool
str_eq [] [] = true
str_eq [] (y ∷ ys) = false
str_eq (x ∷ xs) [] = false
str_eq (x ∷ xs) (y ∷ ys) = if x == y then str_eq xs ys else false

module _ {ℓ} {V : Type ℓ} where
  -- `LIST_prepend`
  unfoldable pub prepend : Key × V → List (Key × V) → List (Key × V)
  prepend item items = item ∷ items

  -- `LIST_remove` of an index that the list has
  unfoldable pub remove_at : ℕ → List (Key × V) → List (Key × V)
  remove_at n [] = []
  remove_at zero (x ∷ xs) = xs
  remove_at (suc n) (x ∷ xs) = x ∷ remove_at n xs

  unfoldable pub get : Key → List (Key × V) → Option V
  get key [] = none
  get key ((k, v) ∷ m) = if str_eq k key then some v else get key m

  unfoldable pub add : Key → V → List (Key × V) → List (Key × V)
  unfolding prepend
  add key value m = prepend (key, value) m

  -- The loop of `MAP_remove`: the value and the index of the first item with the key.
  unfoldable pub find_from : Key → List (Key × V) → ℕ → Option (V × ℕ)
  find_from key [] index = none
  find_from key ((k, v) ∷ m) index =
      if str_eq k key then some (v, index) else find_from key m (u16 (index + 1))

  unfoldable pub remove : Key → List (Key × V) → Option V × List (Key × V)
  unfolding find_from remove_at
  remove key m = elim (find_from key m 0) [
    | none ↦ (none, m)
    | some (v, index) ↦ (some v, remove_at index m)
  ]

  unfoldable pub contain : Key → List (Key × V) → Bool
  contain key [] = false
  contain key ((k, v) ∷ m) = if str_eq k key then true else contain key m
