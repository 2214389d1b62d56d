-- ===== src/Lbq/Calls.antt =====
-- The queue is a FIFO: any sequence of calls gives what a list would give.
use okto_wsd.Base.{
  ℕ, suc, ◌%◌, ◌^◌, ◌≡◌, refl, ap, sym, ◌∙◌, arith, List, [], ◌∷◌, ◌++◌, Option, none, some, length,
}
use okto_wsd.Heap.{Heap, free}
use okto_wsd.Heap.Alloc.{Alloc}
use okto_wsd.Heap.Cells.{Cells, items}
use okto_wsd.Lbq.{LinkedBlockingQueue, new_lqb, enqueue, dequeue, size}
use okto_wsd.Lbq.Fifo.{IsQueue, enqueue_lem, dequeue_nil, dequeue_cons}

-- the calls that threads make on a queue, one after another
pub data Op (A : Type 0) : Type 0 where
  op_enqueue : A → Op A
  op_dequeue op_size : Op A

-- what they see of it
pub data Seen (A : Type 0) : Type 0 where
  seen_nothing : Seen A
  seen_item : Option A → Seen A
  seen_size : ℕ → Seen A

module _ {A : Type 0} where
  unfoldable pub call :
      Alloc A
      → Op A
      → LinkedBlockingQueue
      → Heap A
      → Option (Seen A × (LinkedBlockingQueue × Heap A))
  unfolding enqueue dequeue size
  call m (op_enqueue x) q h = elim (enqueue m x q h) [
    | none ↦ none
    | some t ↦ some (seen_nothing, t)
  ]
  call m op_dequeue q h = elim (dequeue q h) [ none ↦ none | some (x, t) ↦ some (seen_item x, t) ]
  call m op_size q h = some (seen_size (size q), (q, h))

  unfoldable pub calls :
      Alloc A
      → List (Op A)
      → LinkedBlockingQueue
      → Heap A
      → Option (List (Seen A) × (LinkedBlockingQueue × Heap A))
  calls m [] q h = some ([], (q, h))
  calls m (op ∷ ops) q h = elim (call m op q h) [
    | none ↦ none
    | some (seen, (q', h')) ↦ elim (calls m ops q' h') [
      | none ↦ none
      | some (rest, t) ↦ some (seen ∷ rest, t)
    ]
  ]

  -- The same on a list: in at the end, out at the front. The size is a 16-bit number.
  abbrev pub fifo_call : Op A → List A → Seen A × List A
  fifo_call (op_enqueue x) xs = (seen_nothing, xs ++ (x ∷ []))
  fifo_call op_dequeue [] = (seen_item none, [])
  fifo_call op_dequeue (x ∷ xs) = (seen_item (some x), xs)
  fifo_call op_size xs = (seen_size (length xs % 2 ^ 16), xs)

  abbrev pub fifo : List (Op A) → List A → List (Seen A) × List A
  fifo [] xs = ([], xs)
  fifo (op ∷ ops) xs =
      let (seen, ys) = fifo_call op xs in let (rest, zs) = fifo ops ys in (seen ∷ rest, zs)

  length-items : (xs : Cells A) → length (items xs) ≡ length xs
  length-items [] = refl
  length-items (c ∷ xs) = ap suc (length-items xs)

  items-append : (xs ys : Cells A) → items (xs ++ ys) ≡ items xs ++ items ys
  items-append [] ys = refl
  items-append (c ∷ xs) ys = ap (λ l. c.1 ∷ l) (items-append xs ys)

  call_lem :
      (m : Alloc A) (op : Op A) (q : LinkedBlockingQueue) (h : Heap A) (xs : Cells A)
      → IsQueue q h xs
      → (q' : LinkedBlockingQueue) × (h' : Heap A) × (ys : Cells A) × (call m op q h
          ≡ some ((fifo_call op (items xs)).0, (q', h')))
        × IsQueue q' h' ys
        × (items ys ≡ (fifo_call op (items xs)).1)
  unfolding call
  call_lem m (op_enqueue x) q h xs v =
      let (q', h', eq, v') = enqueue_lem m x q h xs v in
      (
        q',
        h',
        xs ++ ((m.fresh h, x) ∷ []),
        ground (arith, eq),
        v',
        items-append xs ((m.fresh h, x) ∷ []),
      )
  call_lem m op_dequeue q h [] v = (q, h, [], ground (arith, dequeue_nil q h v), v, refl)
  call_lem m op_dequeue q h ((a, x) ∷ xs) v =
      let (q', eq, v') = dequeue_cons q h a x xs v in
      (q', free a h, xs, ground (arith, eq), v', refl)
  call_lem m op_size q h xs v = (
    q,
    h,
    xs,
    ap (λ n. some (seen_size n, (q, h))) (v.count ∙ ap (λ n. n % 2 ^ 16) (sym (length-items xs))),
    v,
    refl,
  )

  calls_cons :
      (m : Alloc A) (op : Op A) (ops : List (Op A)) (q : LinkedBlockingQueue) (h : Heap A)
      (q1 : LinkedBlockingQueue) (h1 : Heap A) (q2 : LinkedBlockingQueue) (h2 : Heap A)
      (seen : Seen A) (rest : List (Seen A))
      → call m op q h ≡ some (seen, (q1, h1))
      → calls m ops q1 h1 ≡ some (rest, (q2, h2))
      → calls m (op ∷ ops) q h ≡ some (seen ∷ rest, (q2, h2))
  unfolding calls
  calls_cons m op ops q h q1 h1 q2 h2 seen rest e1 e2 = ground (arith, e1, e2)

  calls_lem :
      (m : Alloc A) (ops : List (Op A)) (q : LinkedBlockingQueue) (h : Heap A) (xs : Cells A)
      → IsQueue q h xs
      → (q' : LinkedBlockingQueue) × (h' : Heap A) × (ys : Cells A) × (calls m ops q h
          ≡ some ((fifo ops (items xs)).0, (q', h')))
        × IsQueue q' h' ys
        × (items ys ≡ (fifo ops (items xs)).1)
  unfolding calls
  calls_lem m [] q h xs v = (q, h, xs, refl, v, refl)
  calls_lem m (op ∷ ops) q h xs v =
      let (q1, h1, ys, eq1, v1, same1) = call_lem m op q h xs v in
      let (q2, h2, zs, eq2, v2, same2) = calls_lem m ops q1 h1 ys v1 in
      (
        q2,
        h2,
        zs,
        calls_cons m op ops q h q1 h1 q2 h2 _ _ eq1
            (eq2 ∙ ap (λ l. some ((fifo ops l).0, (q2, h2))) same1),
        v2,
        same2 ∙ ap (λ l. (fifo ops l).1) same1,
      )

  -- Any calls of enqueue, dequeue and size on a new queue, of any capacity, go through without a
  -- fault and are seen to behave as a list with its front and its end: dequeue gives the oldest
  -- item, or NULL when there is none, and size the number of items modulo 2 ^ 16. What the
  -- nodes of the queue then hold are the items of that list.
  pub calls-fifo :
      (m : Alloc A) (ops : List (Op A)) (capacity : ℕ) (h : Heap A)
      → (q' : LinkedBlockingQueue) × (h' : Heap A) × (ys : Cells A) × (calls m ops
            (new_lqb capacity)
            h
          ≡ some ((fifo ops []).0, (q', h')))
        × IsQueue q' h' ys
        × (items ys ≡ (fifo ops []).1)
  unfolding new_lqb
  calls-fifo m ops capacity h =
      calls_lem m ops (new_lqb capacity) h []
        (record { linked = tt; head = refl; last = refl; count = refl })
