-- ===== src/Lbq8.antt =====
-- libs/collections/src/lbq8.c: the queue for bytes. It is lbq.c with a byte in each node.
use okto_wsd.Base.{ℕ, ◌≡◌, arith, [], ◌∷◌, Option, none, some}
use okto_wsd.Base.Word.{u8}
use okto_wsd.Heap.{Ptr, Heap, free}
use okto_wsd.Heap.Alloc.{Alloc}
use okto_wsd.Lbq
use okto_wsd.Lbq.{LinkedBlockingQueue}
use okto_wsd.Heap.Cells.{Cells}
use okto_wsd.Lbq.Fifo.{IsQueue, dequeue_nil, dequeue_cons}

abbrev pub new_lqb8 : ℕ → LinkedBlockingQueue
new_lqb8 capacity = Lbq.new_lqb capacity

unfoldable pub enqueue8 :
    Alloc ℕ → ℕ → LinkedBlockingQueue → Heap ℕ → Option (LinkedBlockingQueue × Heap ℕ)
enqueue8 m item this h = Lbq.enqueue m (u8 item) this h

-- NULL is the byte 0.
abbrev pub byte_of : Option ℕ → ℕ
byte_of none = 0
byte_of (some item) = item

unfoldable pub dequeue8 : LinkedBlockingQueue → Heap ℕ → Option (ℕ × (LinkedBlockingQueue × Heap ℕ))
dequeue8 this h = elim (Lbq.dequeue this h) [
  | none ↦ none
  | some (item, t) ↦ some (byte_of item, t)
]

unfoldable pub size8 : LinkedBlockingQueue → ℕ
size8 this = Lbq.size this

-- An empty queue and a queue with a 0 in front give the same.
pub dequeue8_zero :
    (this that : LinkedBlockingQueue) (h g : Heap ℕ) (a : Ptr) (xs : Cells ℕ)
    → IsQueue this h []
    → IsQueue that g ((a, 0) ∷ xs)
    → (t u : LinkedBlockingQueue × Heap ℕ) × (dequeue8 this h ≡ some (0, t))
      × (dequeue8 that g ≡ some (0, u))
unfolding dequeue8
dequeue8_zero this that h g a xs empty full =
    let (q, eq, v) = dequeue_cons that g a 0 xs full in
    ((this, h), (q, free a g), ground (arith, dequeue_nil this h empty), ground (arith, eq))
