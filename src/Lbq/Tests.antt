-- ===== src/Lbq/Tests.antt =====
-- A queue of numbers, with an allocator that never uses an address twice.
use okto_wsd.Base.{ℕ, ◌≡◌, List, [], ◌∷◌, some, none}
use okto_wsd.Heap.{Heap}
use okto_wsd.Heap.Alloc.{bump}
use okto_wsd.Heap.Cells.{Cells, items}
use okto_wsd.Lbq.{LinkedBlockingQueue, new_lqb}
use okto_wsd.Lbq.Fifo.{IsQueue}
use okto_wsd.Lbq.Calls.{
  Op, op_enqueue, op_dequeue, op_size, seen_nothing, seen_item, seen_size, calls, calls-fifo,
}

abbrev session : List (Op ℕ)
session =
    op_dequeue ∷ op_enqueue 7 ∷ op_enqueue 8 ∷ op_dequeue ∷ op_enqueue 9 ∷ op_size ∷ op_dequeue ∷ []

-- The capacity of 1 is not looked at.
calls-fifo_example :
    (q' : LinkedBlockingQueue) × (h' : Heap ℕ) × (ys : Cells ℕ) × (calls
        (bump ℕ)
        session
        (new_lqb 1)
        []
      ≡ some (
        seen_item none
            ∷ seen_nothing
            ∷ seen_nothing
            ∷ seen_item (some 7)
            ∷ seen_nothing
            ∷ seen_size 2
            ∷ seen_item (some 8)
            ∷ [],
        (q', h'),
      ))
    × IsQueue q' h' ys
    × (items ys ≡ 9 ∷ [])
calls-fifo_example = calls-fifo (bump ℕ) session 1 []
