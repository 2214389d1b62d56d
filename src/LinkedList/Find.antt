-- ===== src/LinkedList/Find.antt =====
-- Reading in the list: `LIST_get` and `LIST_find`.
use okto_wsd.Base.{
  ℕ, zero, suc, ◌<◌, ◌≡◌, ◌≢◌, refl, ◌^◌, arith, List, [], ◌∷◌, Bool, Option, none, some,
  if◌then◌else◌, length,
}
use okto_wsd.Base.Int.{pos}
use okto_wsd.Heap.{Ptr, null, Heap}
use okto_wsd.Heap.Cells.{Cells, items, head_of, IsLinked}
use okto_wsd.LinkedList.{LinkedList, get, find, iterator_remove, previous_ret, index_of}
use okto_wsd.LinkedList.Cut.{get_elem?, without, IsList, remove_lem}

-- the first item with a property
abbrev pub first : {A : Type 0} → (A → Bool) → List A → Option A
first p [] = none
first p (x ∷ xs) = if p x then some x else first p xs

module _ {A : Type 0} where
  -- `LIST_get` of a list that is not empty gives the item at the index, or NULL behind the end. Of
  -- an empty list it is a fault.
  pub get_lem :
      (k : ℕ) (h : Heap A) (xs : Cells A)
      → IsLinked h xs
      → 0 < length xs
      → get (head_of xs) k h ≡ some (get_elem? (items xs) k)
  unfolding get
  get_lem k h [] s some_item = absurd (omega arith)
  get_lem zero h ((a, v) ∷ xs) (ne, at, apart, s) some_item = ground (arith, at)
  get_lem (suc k) h ((a, v) ∷ []) (ne, at, apart, s) some_item = ground (arith, at)
  get_lem (suc k) h ((a, v) ∷ (b, w) ∷ xs) (ne, at, apart, s) some_item =
      let behind : b ≢ null = s.0 in
      ground (arith, at, behind, get_lem k h ((b, w) ∷ xs) s (omega arith))

  pub find_lem :
      (fuel : ℕ) (p : A → Bool) (h : Heap A) (xs : Cells A)
      → IsLinked h xs
      → length xs < fuel
      → find fuel p (head_of xs) h ≡ some (first p (items xs))
  unfolding find
  find_lem zero p h xs s enough = absurd (omega arith)
  find_lem (suc fuel) p h [] s enough = refl
  find_lem (suc fuel) p h ((a, v) ∷ xs) (ne, at, apart, s) enough =
      ground (arith, at, ne, find_lem fuel p h xs s (omega arith))

  -- The iterator takes out the item that it gave last: the one at the index `n` where `last_ret` is
  -- `n`, if it stands below 2 ^ 16.
  pub iterator_remove_lem :
      (n : ℕ) (q : Ptr) (this : LinkedList) (h : Heap A) (xs : Cells A)
      → IsList this h xs
      → n < length xs
      → n < 2 ^ 16
      → (this' : LinkedList) × (h' : Heap A) × (iterator_remove
            (record { next_node = q; last_ret = pos n })
            this
            h
          ≡ some (record { next_node = q; last_ret = previous_ret (pos n) }, (this', h')))
        × IsList this' h' (without n xs)
  unfolding iterator_remove
  iterator_remove_lem n q this h xs v small low =
      let (x, this', h', eq, v', at) = remove_lem n this h xs v small in
      let index : index_of (pos n) ≡ n = omega arith in (this', h', ground (arith, eq, index), v')
