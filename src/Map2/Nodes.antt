-- ===== src/Map2/Nodes.antt =====
-- map2.c over the nodes of list.c: the same functions with the list where it lies on the heap.
use okto_wsd.Base.{ℕ, zero, suc, ◌+◌, Bool, true, false, Option, none, some}
use okto_wsd.Base.Word.{u16}
use okto_wsd.Heap.{Heap}
use okto_wsd.Heap.Alloc.{Alloc}
use okto_wsd.LinkedList
use okto_wsd.LinkedList.{LinkedList, ListIterator}
use okto_wsd.Map2.{Key, str_eq}

module _ {V : Type 0} where
  -- The loop of `MAP_get`. No result, here and below, is a fault or the end of the fuel.
  unfoldable pub get_loop : ℕ → Key → ListIterator → Heap (Key × V) → Option (Option V)
  unfolding LinkedList.has_next LinkedList.next
  get_loop zero key it h = none
  get_loop (suc fuel) key it h = elim (LinkedList.has_next it) [
    | false ↦ some none
    | true ↦ elim (LinkedList.next it h) [
      | none ↦ none
      | some ((k, v), it') ↦ elim (str_eq k key) [
        | true ↦ some (some v)
        | false ↦ get_loop fuel key it' h
      ]
    ]
  ]

  unfoldable pub get : ℕ → Key → LinkedList → Heap (Key × V) → Option (Option V)
  unfolding get_loop LinkedList.iterator
  get fuel key map h = get_loop fuel key (LinkedList.iterator map) h

  unfoldable pub add :
      Alloc (Key × V) → Key → V → LinkedList → Heap (Key × V) → LinkedList × Heap (Key × V)
  unfolding LinkedList.prepend
  add m key value map h = LinkedList.prepend m (key, value) map h

  -- The loop of `MAP_remove`, up to the item: its value and the index.
  unfoldable pub find_loop : ℕ → Key → ListIterator → ℕ → Heap (Key × V) → Option (Option (V × ℕ))
  unfolding LinkedList.has_next LinkedList.next
  find_loop zero key it index h = none
  find_loop (suc fuel) key it index h = elim (LinkedList.has_next it) [
    | false ↦ some none
    | true ↦ elim (LinkedList.next it h) [
      | none ↦ none
      | some ((k, v), it') ↦ elim (str_eq k key) [
        | true ↦ some (some (v, index))
        | false ↦ find_loop fuel key it' (u16 (index + 1)) h
      ]
    ]
  ]

  unfoldable pub remove_found :
      Option (V × ℕ)
      → LinkedList
      → Heap (Key × V)
      → Option (Option V × (LinkedList × Heap (Key × V)))
  unfolding LinkedList.remove
  remove_found none map h = some (none, (map, h))
  remove_found (some (v, index)) map h = elim (LinkedList.remove index map h) [
    | none ↦ none
    | some (item, t) ↦ some (some v, t)
  ]

  unfoldable pub remove :
      ℕ → Key → LinkedList → Heap (Key × V) → Option (Option V × (LinkedList × Heap (Key × V)))
  unfolding find_loop remove_found LinkedList.iterator
  remove fuel key map h = elim (find_loop fuel key (LinkedList.iterator map) 0 h) [
    | none ↦ none
    | some found ↦ remove_found found map h
  ]

  -- The loop of `MAP_contain`.
  unfoldable pub contain_loop : ℕ → Key → ListIterator → Heap (Key × V) → Option Bool
  unfolding LinkedList.has_next LinkedList.next
  contain_loop zero key it h = none
  contain_loop (suc fuel) key it h = elim (LinkedList.has_next it) [
    | false ↦ some false
    | true ↦ elim (LinkedList.next it h) [
      | none ↦ none
      | some ((k, v), it') ↦ elim (str_eq k key) [
        | true ↦ some true
        | false ↦ contain_loop fuel key it' h
      ]
    ]
  ]

  unfoldable pub contain : ℕ → Key → LinkedList → Heap (Key × V) → Option Bool
  unfolding contain_loop LinkedList.iterator
  contain fuel key map h = contain_loop fuel key (LinkedList.iterator map) h
