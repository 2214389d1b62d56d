-- ===== src/LinkedList.antt =====
-- libs/collections/src/list.c: the list of nodes that the map keeps its items in.
pub mod Cut
pub mod Find
use okto_wsd.Base.{
  ℕ, zero, suc, ◌+◌, ◌-◌, ◌%◌, ◌*◌, ◌^◌, List, [], ◌∷◌, Bool, true, false, not, Option, none, some,
  if◌then◌else◌, ◌==◌,
}
use okto_wsd.Base.Int.{ℤ, pos, negsuc}
use okto_wsd.Base.Word.{u16}
use okto_wsd.Heap.{Ptr, null, Node, Heap, load, store, free}
use okto_wsd.Heap.Alloc.{Alloc}

-- `List`
pub record LinkedList : Type 0 where
  pub head : Ptr
  pub size : ℕ

-- `new_List`
abbrev pub new_list : LinkedList
new_list = record { head = null; size = 0 }

-- `ListIterator`, without the list that it belongs to
pub record ListIterator : Type 0 where
  pub next_node : Ptr
  pub last_ret : ℤ

abbrev pub next_ret : ℤ → ℤ
next_ret (pos n) = pos (n + 1)
next_ret (negsuc zero) = pos 0
next_ret (negsuc (suc n)) = negsuc n

abbrev pub previous_ret : ℤ → ℤ
previous_ret (pos zero) = negsuc 0
previous_ret (pos (suc n)) = pos n
previous_ret (negsuc n) = negsuc (suc n)

-- `(uint16_t) lastRet`
abbrev pub index_of : ℤ → ℕ
index_of (pos n) = u16 n
index_of (negsuc n) = u16 (0xffff * (n + 1))

unfoldable pub iterator : LinkedList → ListIterator
iterator this = record { next_node = this.head; last_ret = negsuc 0 }

unfoldable pub has_next : ListIterator → Bool
has_next it = not (it.next_node == null)

module _ {A : Type 0} where
  unfoldable pub prepend_at : Ptr → A → LinkedList → Heap A → LinkedList × Heap A
  prepend_at node item this h = (
    record { head = node; size = u16 (this.size + 1) },
    store node (record { item = item; next = this.head }) h,
  )

  unfoldable pub prepend : Alloc A → A → LinkedList → Heap A → LinkedList × Heap A
  unfolding prepend_at
  prepend m item this h = prepend_at (m.fresh h) item this h

  -- The item and the iterator behind it; no result is a fault, here and below.
  unfoldable pub next : ListIterator → Heap A → Option (A × ListIterator)
  next it h = elim (load h it.next_node) [
    | none ↦ none
    | some n ↦ some (n.item, record { next_node = n.next; last_ret = next_ret it.last_ret })
  ]

  -- The loop of `LIST_find`; no result is also the end of the fuel.
  unfoldable pub find : ℕ → (A → Bool) → Ptr → Heap A → Option (Option A)
  find zero p see h = none
  find (suc fuel) p see h = elim (see == null) [
    | true ↦ some none
    | false ↦ elim (load h see) [
      | none ↦ none
      | some n ↦ elim (p n.item) [ true ↦ some (some n.item) | false ↦ find fuel p n.next h ]
    ]
  ]

  -- The loop of `LIST_get`, with so many steps to go.
  unfoldable pub get : Ptr → ℕ → Heap A → Option (Option A)
  get p zero h = elim (load h p) [ none ↦ none | some n ↦ some (some n.item) ]
  get p (suc k) h = elim (load h p) [
    | none ↦ none
    | some n ↦ elim (n.next == null) [ true ↦ some none | false ↦ get n.next k h ]
  ]

  -- The loop of `LIST_remove`, with so many steps to go: the nodes `prev` and `n`.
  unfoldable pub walk : ℕ → (prev n : Ptr) → Heap A → Option (Ptr × Ptr)
  walk zero prev n h = some (prev, n)
  walk (suc k) prev n h = elim (load h n) [
    | none ↦ none
    | some node ↦ walk k (if k == 0 then n else prev) node.next h
  ]

  -- The node at `n` taken out behind `prev`.
  unfoldable pub unlink : LinkedList → Heap A → (prev n : Ptr) → Option (A × (LinkedList × Heap A))
  unlink this h prev n = elim (load h n) [
    | none ↦ none
    | some node ↦
        let size = u16 (this.size + 0xffff) in
        if prev == null
        then some (node.item, (record { head = node.next; size = size }, free n h))
        else elim (load h prev) [
          | none ↦ none
          | some before ↦ some (
            node.item,
            (
              record this { size = size },
              free n (store prev (record before { next = node.next }) h),
            ),
          )
        ]
  ]

  unfoldable pub remove : ℕ → LinkedList → Heap A → Option (A × (LinkedList × Heap A))
  unfolding walk unlink
  remove index this h = elim (walk index null this.head h) [
    | none ↦ none
    | some (prev, n) ↦ unlink this h prev n
  ]

  -- `LIST_ITERATOR_remove`, and `MAP_ITERATOR_remove` but for the freeing of the item.
  unfoldable pub iterator_remove :
      ListIterator → LinkedList → Heap A → Option (ListIterator × (LinkedList × Heap A))
  unfolding remove
  iterator_remove it this h = elim (remove (index_of it.last_ret) this h) [
    | none ↦ none
    | some (item, t) ↦ some (record it { last_ret = previous_ret it.last_ret }, t)
  ]
