-- ===== src/Heap/Cells.antt =====
-- A list of nodes on the heap: its addresses and items, in order, and what writes leave of it.
use okto_wsd.Base.{
  ◌≡◌, ◌≢◌, refl, ◌∙◌, arith, List, [], ◌∷◌, ◌++◌, Bool, true, false, ◌||◌, none, some,
  if◌then◌else◌, ◌==◌, map,
}
use okto_wsd.Heap.{Ptr, null, Node, Heap, load, store, free}

abbrev pub Cells : Type 0 → Type 0
Cells A = List (Ptr × A)

module _ {A : Type 0} where
  abbrev pub items : Cells A → List A
  items xs = map (λ c. c.1) xs

  abbrev pub head_of : Cells A → Ptr
  head_of [] = null
  head_of ((a, v) ∷ xs) = a

  abbrev pub last_of : Cells A → Ptr
  last_of [] = null
  last_of ((a, v) ∷ []) = a
  last_of ((a, v) ∷ c ∷ xs) = last_of (c ∷ xs)

  abbrev pub has : Ptr → Cells A → Bool
  has p [] = false
  has p ((a, v) ∷ xs) = (a == p) || has p xs

  abbrev pub node : A → Ptr → Node A
  node v q = record { item = v; next = q }

  -- The cells are distinct nodes, each with its item, and each leads to the next.
  abbrev pub IsLinked : Heap A → Cells A → Type 0
  IsLinked h [] = Unit {0}
  IsLinked h ((a, v) ∷ xs) =
      (a ≢ null) × (load h a ≡ some (node v (head_of xs))) × (has a xs ≡ false) × IsLinked h xs

  pub load-store :
      (h : Heap A) (p q : Ptr) (n : Node A)
      → load (store p n h) q ≡ (if p == q then some n else load h q)
  unfolding load store
  load-store h p q n = refl

  pub load-free : (h : Heap A) (p q : Ptr) → load (free p h) q ≡ (if p == q then none else load h q)
  unfolding load free
  load-free h p q = refl

  has-append : (p : Ptr) (xs ys : Cells A) → has p (xs ++ ys) ≡ (has p xs || has p ys)
  has-append p [] ys = refl
  has-append p ((a, v) ∷ xs) ys = ground (arith, has-append p xs ys)

  -- The cells are linked on any heap that holds the same at their addresses.
  pub frame-store :
      (h : Heap A) (p : Ptr) (n : Node A) (xs : Cells A)
      → IsLinked h xs
      → has p xs ≡ false
      → IsLinked (store p n h) xs
  frame-store h p n [] s out = tt
  frame-store h p n ((a, v) ∷ xs) (ne, at, apart, s) out =
      (ne, ground (arith, load-store h p a n), apart, frame-store h p n xs s (ground arith))

  pub frame-free :
      (h : Heap A) (p : Ptr) (xs : Cells A)
      → IsLinked h xs
      → has p xs ≡ false
      → IsLinked (free p h) xs
  frame-free h p [] s out = tt
  frame-free h p ((a, v) ∷ xs) (ne, at, apart, s) out =
      (ne, ground (arith, load-free h p a), apart, frame-free h p xs s (ground arith))

  -- An address that holds no node is none of theirs.
  pub not_has_of_none :
      (h : Heap A) (p : Ptr) (xs : Cells A) → IsLinked h xs → load h p ≡ none → has p xs ≡ false
  not_has_of_none h p [] s unused = refl
  not_has_of_none h p ((a, v) ∷ xs) (ne, at, apart, s) unused =
      ground (arith, not_has_of_none h p xs s unused)

  pub load-store_other :
      (h : Heap A) (p q : Ptr) (n : Node A) → p ≢ q → load (store p n h) q ≡ load h q
  load-store_other h p q n ne = ground (arith, load-store h p q n)

  pub load-store_same : (h : Heap A) (p : Ptr) (n : Node A) → load (store p n h) p ≡ some n
  load-store_same h p n = ground (arith, load-store h p p n)

  pub ne_of_has : (p a : Ptr) (xs : Cells A) → has p xs ≡ true → has a xs ≡ false → p ≢ a
  ne_of_has p a xs i out e = cc

  pub has-last_of :
      (a : Ptr) (v : A) (xs : Cells A) → has (last_of ((a, v) ∷ xs)) ((a, v) ∷ xs) ≡ true
  has-last_of a v [] = ground arith
  has-last_of a v ((b, w) ∷ xs) = ground (arith, has-last_of b w xs)

  pub load-last_of :
      (h : Heap A) (a : Ptr) (v : A) (xs : Cells A)
      → IsLinked h ((a, v) ∷ xs)
      → (w : A) × (load h (last_of ((a, v) ∷ xs)) ≡ some (node w null))
  load-last_of h a v [] (ne, at, apart, s) = (v, at)
  load-last_of h a v ((b, w) ∷ xs) (ne, at, apart, s) = load-last_of h b w xs s

  -- A new node behind the last, which is made to lead to it.
  pub IsLinked-append :
      (h : Heap A) (p : Ptr) (x w : A) (a : Ptr) (v : A) (xs : Cells A)
      → IsLinked h ((a, v) ∷ xs)
      → p ≢ null
      → has p ((a, v) ∷ xs) ≡ false
      → load h p ≡ some (node x null)
      → load h (last_of ((a, v) ∷ xs)) ≡ some (node w null)
      → IsLinked (store (last_of ((a, v) ∷ xs)) (node w p) h) (((a, v) ∷ xs) ++ ((p, x) ∷ []))
  IsLinked-append h p x w a v [] (ne, at, apart, s) some_p out new last = (
    ne,
    ground (arith, load-store h a a (node w p)),
    ground arith,
    (some_p, ground (arith, load-store h a p (node w p)), refl, tt),
  )
  IsLinked-append h p x w a v ((b, u) ∷ xs) (ne, at, apart, s) some_p out new last = (
    ne,
    load-store_other h (last_of ((b, u) ∷ xs)) a (node w p)
          (ne_of_has (last_of ((b, u) ∷ xs)) a ((b, u) ∷ xs) (has-last_of b u xs) apart)
        ∙ at,
    ground (arith, has-append a ((b, u) ∷ xs) ((p, x) ∷ [])),
    IsLinked-append h p x w b u xs s some_p (ground arith) new last,
  )
