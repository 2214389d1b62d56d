-- ===== src/Map2/Tests.antt =====
-- A map in which a key stands twice.
use okto_wsd.Base.{ℕ, ◌≡◌, arith, List, [], ◌∷◌, false, some}
use okto_wsd.Heap.{Heap}
use okto_wsd.Heap.Alloc.{bump}
use okto_wsd.Heap.Cells.{Cells, items}
use okto_wsd.LinkedList.{LinkedList, new_list}
use okto_wsd.LinkedList.Cut.{IsList}
use okto_wsd.Map2
use okto_wsd.Map2.Calls.{
  MapOp, map_get, map_remove, map_contain, map_add, map_nothing, map_value, map_found, calls,
  calls-calls_items,
}
use okto_wsd.Map2.{Key, get, remove}

abbrev doubled : List (Key × ℕ)
doubled = (49 ∷ [], 4) ∷ (50 ∷ [], 5) ∷ (49 ∷ [], 6) ∷ []

abbrev session : List (MapOp ℕ)
session =
    map_add (49 ∷ []) 4
    ∷ map_add (50 ∷ []) 5
    ∷ map_add (49 ∷ []) 6
    ∷ map_remove (50 ∷ [])
    ∷ map_contain (50 ∷ [])
    ∷ map_get (49 ∷ [])
    ∷ map_remove (49 ∷ [])
    ∷ map_get (49 ∷ [])
    ∷ []

calls-calls_items_example :
    (m' : LinkedList) × (h' : Heap (Key × ℕ)) × (ys : Cells (Key × ℕ)) × (calls
        (bump (Key × ℕ))
        9
        session
        new_list
        []
      ≡ some (
        map_nothing
            ∷ map_nothing
            ∷ map_nothing
            ∷ map_value (some 5)
            ∷ map_found false
            ∷ map_value (some 6)
            ∷ map_value (some 6)
            ∷ map_value (some 4)
            ∷ [],
        (m', h'),
      ))
    × IsList m' h' ys
    × (items ys ≡ (49 ∷ [], 4) ∷ [])
unfolding Map2.get Map2.add Map2.remove Map2.contain
calls-calls_items_example =
    calls-calls_items (bump (Key × ℕ)) 9 session [] (omega arith) (omega arith)
