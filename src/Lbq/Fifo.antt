-- ===== src/Lbq/Fifo.antt =====
-- One call on a queue whose nodes are known.
use okto_wsd.Base.{
  ◌+◌, ◌%◌, ◌^◌, ◌≡◌, ◌≢◌, refl, sym, arith, [], ◌∷◌, ◌++◌, none, some, if◌then◌else◌, ◌==◌, length,
  length-append,
}
use okto_wsd.Base.Word.{u16}
use okto_wsd.Heap.{Ptr, null, Heap, load, store, free}
use okto_wsd.Heap.Alloc.{Alloc}
use okto_wsd.Heap.Cells.{
  Cells, head_of, last_of, node, IsLinked, load-store_same, frame-store, frame-free,
  not_has_of_none, load-last_of, IsLinked-append,
}
use okto_wsd.Lbq.{LinkedBlockingQueue, enqueue, dequeue}

module _ {A : Type 0} where
  -- The queue's nodes on the heap, from `head` to `last`, and their count.
  pub record IsQueue (q : LinkedBlockingQueue) (h : Heap A) (xs : Cells A) : Type 0 where
    pub linked : IsLinked h xs
    pub head : q.head ≡ head_of xs
    pub last : q.last ≡ last_of xs
    pub count : q.count ≡ length xs % 2 ^ 16

  last_of_some :
      (h : Heap A) (a : Ptr) (v : A) (xs : Cells A)
      → IsLinked h ((a, v) ∷ xs)
      → last_of ((a, v) ∷ xs) ≢ null
  last_of_some h a v [] (ne, at, apart, s) = ne
  last_of_some h a v ((b, w) ∷ xs) (ne, at, apart, s) = last_of_some h b w xs s

  last_of-append :
      (a : Ptr) (v : A) (xs : Cells A) (p : Ptr) (x : A)
      → last_of (((a, v) ∷ xs) ++ ((p, x) ∷ [])) ≡ p
  last_of-append a v [] p x = refl
  last_of-append a v ((b, w) ∷ xs) p x = last_of-append b w xs p x

  -- With something in the queue, the last node is made to lead to the new one.
  enqueue_behind :
      (m : Alloc A) (x w : A) (q : LinkedBlockingQueue) (h : Heap A) (l : Ptr)
      → q.last ≡ l
      → l ≢ null
      → load (store (m.fresh h) (node x null) h) l ≡ some (node w null)
      → enqueue m x q h
        ≡ some (
          record q { last = m.fresh h; count = u16 (q.count + 1) },
          store l (node w (m.fresh h)) (store (m.fresh h) (node x null) h),
        )
  unfolding enqueue
  enqueue_behind m x w q h l is some_last at = ground arith

  dequeue_at :
      (q : LinkedBlockingQueue) (h : Heap A) (a : Ptr) (x : A) (p : Ptr)
      → q.head ≡ a
      → a ≢ null
      → load h a ≡ some (node x p)
      → dequeue q h
        ≡ some (
          some x,
          (
            record q {
              head = p;
              last = if p == null then null else q.last;
              count = u16 (q.count + 0xffff);
            },
            free a h,
          ),
        )
  unfolding dequeue
  dequeue_at q h a x p is ne at = ground arith

  pub enqueue_lem :
      (m : Alloc A) (x : A) (q : LinkedBlockingQueue) (h : Heap A) (xs : Cells A)
      → IsQueue q h xs
      → (q' : LinkedBlockingQueue) × (h' : Heap A) × (enqueue m x q h ≡ some (q', h'))
        × IsQueue q' h' (xs ++ ((m.fresh h, x) ∷ []))
  unfolding enqueue
  enqueue_lem m x q h [] v = (
    record q { last = m.fresh h; head = m.fresh h; count = u16 (q.count + 1) },
    store (m.fresh h) (node x null) h,
    rw v.last refl,
    record {
      linked = (m.fresh_some h, load-store_same h (m.fresh h) (node x null), refl, tt);
      head = refl;
      last = refl;
      count = omega (arith, v.count);
    },
  )
  enqueue_lem m x q h ((a, w) ∷ xs) v =
      let p = m.fresh h in
      let out = not_has_of_none h p ((a, w) ∷ xs) v.linked (m.fresh_unused h) in
      let h1 = store p (node x null) h in
      let s = frame-store h p (node x null) ((a, w) ∷ xs) v.linked out in
      let (u, at) = load-last_of h1 a w xs s in
      let last_some = last_of_some h1 a w xs s in
      (
        record q { last = p; count = u16 (q.count + 1) },
        store (last_of ((a, w) ∷ xs)) (node u p) h1,
        enqueue_behind m x u q h (last_of ((a, w) ∷ xs)) v.last last_some at,
        record {
          linked =
              IsLinked-append h1 p x u a w xs s (m.fresh_some h) out
                (load-store_same h p (node x null)) at;
          head = v.head;
          last = sym (last_of-append a w xs p x);
          count = omega (arith, v.count, length-append ((a, w) ∷ xs) ((p, x) ∷ []));
        },
      )

  pub dequeue_nil :
      (q : LinkedBlockingQueue) (h : Heap A) → IsQueue q h [] → dequeue q h ≡ some (none, (q, h))
  unfolding dequeue
  dequeue_nil q h v = rw v.head refl

  pub dequeue_cons :
      (q : LinkedBlockingQueue) (h : Heap A) (a : Ptr) (x : A) (xs : Cells A)
      → IsQueue q h ((a, x) ∷ xs)
      → (q' : LinkedBlockingQueue) × (dequeue q h ≡ some (some x, (q', free a h)))
        × IsQueue q' (free a h) xs
  unfolding dequeue
  dequeue_cons q h a x [] v = (
    record q { head = null; last = null; count = u16 (q.count + 0xffff) },
    dequeue_at q h a x null v.head v.linked.0 v.linked.1,
    record { linked = tt; head = refl; last = refl; count = omega (arith, v.count) },
  )
  dequeue_cons q h a x ((b, y) ∷ xs) v =
      let (ne, at, apart, s) = v.linked in
      (
        record q { head = b; count = u16 (q.count + 0xffff) },
        ground (arith, dequeue_at q h a x b v.head ne at),
        record {
          linked = frame-free h a ((b, y) ∷ xs) s apart;
          head = refl;
          last = v.last;
          count = omega (arith, v.count);
        },
      )
