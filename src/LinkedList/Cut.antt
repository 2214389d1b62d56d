-- ===== src/LinkedList/Cut.antt =====
-- What removing leaves of the nodes.
use okto_wsd.Base.{
  ℕ, zero, suc, ◌+◌, ◌%◌, ◌^◌, ◌<◌, ◌≡◌, ◌≢◌, refl, ap, sym, ◌∙◌, arith, List, [], ◌∷◌, true, false,
  Option, none, some, length,
}
use okto_wsd.Heap.{Ptr, null, Node, Heap, load, store, free}
use okto_wsd.Heap.Cells.{
  Cells, items, head_of, has, node, IsLinked, frame-store, frame-free, load-store, load-free,
  ne_of_has,
}
use okto_wsd.LinkedList.{LinkedList, walk, unlink, remove}

-- a list without the element at an index
abbrev pub without : {B : Type 0} → ℕ → List B → List B
without n [] = []
without zero (x ∷ xs) = xs
without (suc n) (x ∷ xs) = x ∷ without n xs

abbrev pub get_elem? : {B : Type 0} → List B → ℕ → Option B
get_elem? [] n = none
get_elem? (x ∷ xs) zero = some x
get_elem? (x ∷ xs) (suc n) = get_elem? xs n

module _ {A : Type 0} where
  -- the address at an index
  abbrev addr : ℕ → Cells A → Ptr
  addr n [] = null
  addr zero ((a, v) ∷ xs) = a
  addr (suc n) ((a, v) ∷ xs) = addr n xs

  pub items-without : (n : ℕ) (xs : Cells A) → items (without n xs) ≡ without n (items xs)
  items-without zero [] = refl
  items-without (suc n) [] = refl
  items-without zero (x ∷ xs) = refl
  items-without (suc n) (x ∷ xs) = ap (λ l. x.1 ∷ l) (items-without n xs)

  has-without : (p : Ptr) (n : ℕ) (xs : Cells A) → has p xs ≡ false → has p (without n xs) ≡ false
  has-without p zero [] out = refl
  has-without p (suc n) [] out = refl
  has-without p zero ((a, v) ∷ xs) out = ground arith
  has-without p (suc n) ((a, v) ∷ xs) out = ground (arith, has-without p n xs)

  has-addr : (n : ℕ) (xs : Cells A) → n < length xs → has (addr n xs) xs ≡ true
  has-addr n [] h = absurd (omega arith)
  has-addr zero ((a, v) ∷ xs) h = ground arith
  has-addr (suc n) ((a, v) ∷ xs) h = ground (arith, has-addr n xs (omega arith))

  -- The walk to the node behind the one at an index.
  walk_lem :
      (k : ℕ) (prev : Ptr) (h : Heap A) (xs : Cells A)
      → IsLinked h xs
      → suc k < length xs
      → walk (suc k) prev (head_of xs) h ≡ some (addr k xs, addr (suc k) xs)
  unfolding walk
  walk_lem k prev h [] s small = absurd (omega arith)
  walk_lem k prev h ((a, v) ∷ []) s small = absurd (omega arith)
  walk_lem zero prev h ((a, v) ∷ (b, w) ∷ xs) (ne, at, apart, s) small = ground (arith, at)
  walk_lem (suc k) prev h ((a, v) ∷ (b, w) ∷ xs) (ne, at, apart, s) small =
      ground (arith, at, walk_lem k prev h ((b, w) ∷ xs) s (omega arith))

  head_of-without :
      (k : ℕ) (xs : Cells A) → suc k < length xs → head_of (without (suc k) xs) ≡ head_of xs
  head_of-without k [] small = refl
  head_of-without k ((a, v) ∷ xs) small = refl

  -- The heap when the node behind the one at the index `k` has been unlinked and given back.
  abbrev cut_heap : ℕ → Cells A → A → Ptr → Heap A → Heap A
  cut_heap k xs w q h = free (addr (suc k) xs) (store (addr k xs) (node w q) h)

  load-cut :
      (p prev n : Ptr) (m : Node A) (h : Heap A)
      → prev ≢ p
      → n ≢ p
      → load (free n (store prev m h)) p ≡ load h p
  load-cut p prev n m h ne1 ne2 =
      ground (arith, load-free (store prev m h) n p, load-store h prev p m)

  apart_lem :
      (a b : Ptr) (w : A) (xs : Cells A)
      → has a ((b, w) ∷ xs) ≡ false
      → (a ≢ b) × (has a xs ≡ false)
  apart_lem a b w xs out = ground arith

  load_front :
      (a b : Ptr) (m : Node A) (h : Heap A) → a ≢ b → load (free b (store a m h)) a ≡ some m
  load_front a b m h ne = ground (arith, load-free (store a m h) b a, load-store h a a m)

  IsLinked-cut :
      (k : ℕ) (h : Heap A) (xs : Cells A)
      → IsLinked h xs
      → suc k < length xs
      → (w x : A) × (q : Ptr) × (load h (addr k xs) ≡ some (node w (addr (suc k) xs)))
        × (load h (addr (suc k) xs) ≡ some (node x q))
        × (addr k xs ≢ null)
        × (addr k xs ≢ addr (suc k) xs)
        × IsLinked (cut_heap k xs w q h) (without (suc k) xs)
        × (get_elem? (items xs) (suc k) ≡ some x)
  IsLinked-cut k h [] s small = absurd (omega arith)
  IsLinked-cut k h ((a, v) ∷ []) s small = absurd (omega arith)
  IsLinked-cut zero h ((a, v) ∷ (b, w) ∷ xs) (ne, at, apart, (ne', at', apart', s)) small =
      let (differ, out) = apart_lem a b w xs apart in
      (
        v,
        w,
        head_of xs,
        at,
        at',
        ne,
        differ,
        (
          ne,
          load_front a b (node v (head_of xs)) h differ,
          out,
          frame-free (store a (node v (head_of xs)) h) b xs
              (frame-store h a (node v (head_of xs)) xs s out) apart',
        ),
        refl,
      )
  IsLinked-cut (suc k) h ((a, v) ∷ xs) (ne, at, apart, s) small =
      let (w, x, q, here, there, ne', differ, linked, item) = IsLinked-cut k h xs s (omega arith) in
      (
        w,
        x,
        q,
        here,
        there,
        ne',
        differ,
        (
          ne,
          load-cut a (addr k xs) (addr (suc k) xs) (node w q) h
                (ne_of_has (addr k xs) a xs (has-addr k xs (omega arith)) apart)
                (ne_of_has (addr (suc k) xs) a xs (has-addr (suc k) xs (omega arith)) apart)
              ∙ at
              ∙ ap (λ p. some (node v p)) (sym (head_of-without k xs (omega arith))),
          has-without a (suc k) xs apart,
          linked,
        ),
        item,
      )

  -- What stands for a list: its nodes and the count, modulo 2 ^ 16.
  pub record IsList (this : LinkedList) (h : Heap A) (xs : Cells A) : Type 0 where
    pub linked : IsLinked h xs
    pub head : this.head ≡ head_of xs
    pub count : this.size ≡ length xs % 2 ^ 16

  length-without : (n : ℕ) (ys : Cells A) → n < length ys → suc (length (without n ys)) ≡ length ys
  length-without n [] small = absurd (omega arith)
  length-without zero (y ∷ ys) small = refl
  length-without (suc n) (y ∷ ys) small = ap suc (length-without n ys (omega arith))

  unlink_lem :
      (this : LinkedList) (h : Heap A) (prev n q : Ptr) (w x : A)
      → prev ≢ null
      → load h n ≡ some (node x q)
      → load h prev ≡ some (node w n)
      → unlink this h prev n
        ≡ some (
          x,
          (record this { size = (this.size + 0xffff) % 2 ^ 16 }, free n (store prev (node w q) h)),
        )
  unfolding unlink
  unlink_lem this h prev n q w x ne there here = ground (arith, there, here)

  remove_of_walk :
      (k : ℕ) (this : LinkedList) (h : Heap A) (prev n : Ptr) (r : A × (LinkedList × Heap A))
      → walk k null this.head h ≡ some (prev, n)
      → unlink this h prev n ≡ some r
      → remove k this h ≡ some r
  unfolding remove
  remove_of_walk k this h prev n r walked cut = ground (arith, walked, cut)

  -- `LIST_remove` of an index that the list has gives the item there and leaves the others.
  pub remove_lem :
      (n : ℕ) (this : LinkedList) (h : Heap A) (xs : Cells A)
      → IsList this h xs
      → n < length xs
      → (x : A) × (this' : LinkedList) × (h' : Heap A) × (remove n this h ≡ some (x, (this', h')))
        × IsList this' h' (without n xs)
        × (get_elem? (items xs) n ≡ some x)
  unfolding remove unlink walk
  remove_lem n this h [] v small = absurd (omega arith)
  remove_lem zero this h ((a, x) ∷ xs) v small =
      let (ne, at, apart, s) = v.linked in
      (
        x,
        record { head = head_of xs; size = (this.size + 0xffff) % 2 ^ 16 },
        free a h,
        ground (arith, v.head, at),
        record { linked = frame-free h a xs s apart; head = refl; count = omega (arith, v.count) },
        refl,
      )
  remove_lem (suc k) this h ((a, y) ∷ xs) v small =
      let cells = (a, y) ∷ xs in
      let (w, x, q, here, there, ne, differ, linked, item) =
        IsLinked-cut k h cells v.linked small in
      let walked = walk_lem k null h cells v.linked small in
      (
        x,
        record this { size = (this.size + 0xffff) % 2 ^ 16 },
        cut_heap k cells w q h,
        remove_of_walk (suc k) this h (addr k cells) (addr (suc k) cells) _
            (ap (λ p. walk (suc k) null p h) v.head ∙ walked)
            (unlink_lem this h (addr k cells) (addr (suc k) cells) q w x ne there here),
        record {
          linked = linked;
          head = v.head;
          count = omega (arith, v.count, length-without (suc k) cells small);
        },
        item,
      )
