-- ===== src/Lbq.antt =====
-- libs/collections/src/lbq.c: the queue between the threads. Each function is the part of the C
-- function between its lock and its unlock.
pub mod Fifo
pub mod Calls
mod Tests
use okto_wsd.Base.{
  ℕ, suc, ◌+◌, ◌-◌, ◌%◌, ◌^◌, List, [], ◌∷◌, Option, none, some, if◌then◌else◌, ◌==◌,
}
use okto_wsd.Base.Word.{u16}
use okto_wsd.Heap.{Ptr, null, Node, Heap, load, store, free}
use okto_wsd.Heap.Alloc.{Alloc}

pub record LinkedBlockingQueue : Type 0 where
  pub capacity : ℕ
  pub count : ℕ
  pub head : Ptr
  pub last : Ptr

-- `new_LQB`
unfoldable pub new_lqb : ℕ → LinkedBlockingQueue
new_lqb capacity = record { capacity = capacity; count = 0; head = null; last = null }

module _ {A : Type 0} where
  -- `this->last->next = node`, a fault where `last` holds no node
  unfoldable pub link_last : Ptr → Ptr → Heap A → Option (Heap A)
  link_last last node h = elim (load h last) [
    | none ↦ none
    | some n ↦ some (store last (record n { next = node }) h)
  ]

  -- With `node` as `pmalloc` returned it.
  unfoldable pub enqueue_at :
      Ptr → A → LinkedBlockingQueue → Heap A → Option (LinkedBlockingQueue × Heap A)
  unfolding link_last
  enqueue_at node item this h =
      let h1 = store node (record { item = item; next = null }) h in
      let count = u16 (this.count + 1) in
      if this.last == null
      then some (record this { last = node; head = node; count = count }, h1)
      else elim (link_last this.last node h1) [
        | none ↦ none
        | some h2 ↦ some (record this { last = node; count = count }, h2)
      ]

  unfoldable pub enqueue :
      Alloc A → A → LinkedBlockingQueue → Heap A → Option (LinkedBlockingQueue × Heap A)
  unfolding enqueue_at
  enqueue m item this h = enqueue_at (m.fresh h) item this h

  -- The item, or `none` for NULL, the queue and the heap; no result is a fault.
  unfoldable pub dequeue :
      LinkedBlockingQueue → Heap A → Option (Option A × (LinkedBlockingQueue × Heap A))
  dequeue this h = if this.head == null then some (none, (this, h)) else elim (load h this.head) [
    | none ↦ none
    | some n ↦
        let count = u16 (this.count + 0xffff) in
        if n.next == null
        then some (
          some n.item,
          (record this { head = null; last = null; count = count }, free this.head h),
        )
        else some (some n.item, (record this { head = n.next; count = count }, free this.head h))
  ]

unfoldable pub size : LinkedBlockingQueue → ℕ
size this = this.count
