-- ===== src/TreeSet/Order.antt =====
-- Putting keeps the search order, and the tree read from left to right is a list sorted by hash.
use okto_wsd.Base.{
  ℕ, ◌+◌, ◌%◌, ◌^◌, ◌<◌, ◌≡◌, refl, sym, ap, ◌∙◌, arith, List, [], ◌∷◌, ◌++◌, Bool, if◌then◌else◌,
  ◌==◌, ltb, length, compare_cases, inl, inr,
}
use mathlib.Core.Path.{subst}
use okto_wsd.TreeSet.{Tree, leaf, node, TreeSet, new_tree_set, hash, put_at, put}

-- an element as its hash, its size and its value
abbrev pub Entry : Type 0 → Type 0
Entry A = ℕ × (ℕ × A)

module _ {A : Type 0} where
  -- the elements of a tree, from left to right
  abbrev pub inorder : Tree A → List (Entry A)
  inorder leaf = []
  inorder (node left right h s v) = inorder left ++ ((h, (s, v)) ∷ inorder right)

  -- Into a sorted list: in the place of an element with the same hash, or else in its order.
  abbrev pub put_sorted : Entry A → List (Entry A) → List (Entry A)
  put_sorted x [] = x ∷ []
  put_sorted x (y ∷ ys) =
      if y.0 == x.0 then x ∷ ys else if ltb x.0 y.0 then x ∷ y ∷ ys else y ∷ put_sorted x ys

  -- All hashes of a list are below a bound, or above it.
  abbrev pub Below : ℕ → List (Entry A) → Type 0
  Below h [] = Unit
  Below h (y ∷ ys) = (y.0 < h) × Below h ys

  abbrev pub Above : ℕ → List (Entry A) → Type 0
  Above h [] = Unit
  Above h (y ∷ ys) = (h < y.0) × Above h ys

  -- Every hash to the left is smaller than the node's, every hash to the right greater.
  abbrev pub IsSearch : Tree A → Type 0
  IsSearch leaf = Unit
  IsSearch (node left right h s v) =
      IsSearch left × IsSearch right × Below h (inorder left) × Above h (inorder right)

  put_sorted-left :
      (x y : Entry A) (xs ys : List (Entry A))
      → x.0 < y.0
      → put_sorted x (xs ++ (y ∷ ys)) ≡ put_sorted x xs ++ (y ∷ ys)
  put_sorted-left x y [] ys low = ground arith
  put_sorted-left x y (z ∷ xs) ys low = ground (arith, put_sorted-left x y xs ys low)

  put_sorted-same :
      (x y : Entry A) (xs ys : List (Entry A))
      → y.0 ≡ x.0
      → Below y.0 xs
      → put_sorted x (xs ++ (y ∷ ys)) ≡ xs ++ (x ∷ ys)
  put_sorted-same x y [] ys same below = ground arith
  put_sorted-same x y (z ∷ xs) ys same (b, below) =
      ground (arith, put_sorted-same x y xs ys same below)

  put_sorted-right :
      (x y : Entry A) (xs ys : List (Entry A))
      → y.0 < x.0
      → Below y.0 xs
      → put_sorted x (xs ++ (y ∷ ys)) ≡ xs ++ (y ∷ put_sorted x ys)
  put_sorted-right x y [] ys high below = ground arith
  put_sorted-right x y (z ∷ xs) ys high (b, below) =
      ground (arith, put_sorted-right x y xs ys high below)

  Below-put_sorted :
      (h : ℕ) (x : Entry A) (ys : List (Entry A)) → x.0 < h → Below h ys → Below h (put_sorted x ys)
  Below-put_sorted h x [] low below = (low, tt)
  Below-put_sorted h x (y ∷ ys) low (b, below) = ground (arith, Below-put_sorted h x ys low below)

  Above-put_sorted :
      (h : ℕ) (x : Entry A) (ys : List (Entry A)) → h < x.0 → Above h ys → Above h (put_sorted x ys)
  Above-put_sorted h x [] high above = (high, tt)
  Above-put_sorted h x (y ∷ ys) high (b, above) = ground (arith, Above-put_sorted h x ys high above)

  put_at-equal :
      (h size : ℕ) (x : A) (l r : Tree A) (k s : ℕ) (v : A)
      → k ≡ h
      → put_at h size x (node l r k s v) ≡ node l r k size x
  unfolding put_at
  put_at-equal h size x l r k s v e = ground (arith, e)

  put_at-less :
      (h size : ℕ) (x : A) (l r : Tree A) (k s : ℕ) (v : A)
      → h < k
      → put_at h size x (node l r k s v) ≡ node (put_at h size x l) r k s v
  unfolding put_at
  put_at-less h size x l r k s v low = ground arith

  put_at-more :
      (h size : ℕ) (x : A) (l r : Tree A) (k s : ℕ) (v : A)
      → k < h
      → put_at h size x (node l r k s v) ≡ node l (put_at h size x r) k s v
  unfolding put_at
  put_at-more h size x l r k s v high = ground arith

  -- What putting is to do to a tree.
  abbrev IsPut : ℕ → ℕ → A → Tree A → Tree A → Type 0
  IsPut h size x t t' = (inorder t' ≡ put_sorted (h, (size, x)) (inorder t)) × IsSearch t'

  put_at_lem : (h size : ℕ) (x : A) (t : Tree A) → IsSearch t → IsPut h size x t (put_at h size x t)
  put_at_lem h size x leaf good = unfold put_at in (refl, (tt, tt, tt, tt))
  put_at_lem h size x (node l r k s v) (gl, gr, below, above) = elim (compare_cases h k) [
    | inl low ↦
        let (same, search) = put_at_lem h size x l gl in
        subst (IsPut h size x (node l r k s v)) (sym (put_at-less h size x l r k s v low)) (
          ap (λ m. m ++ ((k, (s, v)) ∷ inorder r)) same
              ∙ sym (put_sorted-left (h, (size, x)) (k, (s, v)) (inorder l) (inorder r) low),
          (
            search,
            gr,
            subst (Below k) (sym same) (Below-put_sorted k (h, (size, x)) (inorder l) low below),
            above,
          ),
        )
    | inr (inl e) ↦
        subst (IsPut h size x (node l r k s v)) (sym (put_at-equal h size x l r k s v (sym e))) (
          ap (λ j. inorder l ++ ((j, (size, x)) ∷ inorder r)) (sym e)
              ∙ sym (
                  put_sorted-same (h, (size, x)) (k, (s, v)) (inorder l) (inorder r) (sym e) below),
          (gl, gr, below, above),
        )
    | inr (inr high) ↦
        let (same, search) = put_at_lem h size x r gr in
        subst (IsPut h size x (node l r k s v)) (sym (put_at-more h size x l r k s v high)) (
          ap (λ m. inorder l ++ ((k, (s, v)) ∷ m)) same
              ∙ sym
                  (put_sorted-right (h, (size, x)) (k, (s, v)) (inorder l) (inorder r) high below),
          (
            gl,
            search,
            below,
            subst (Above k) (sym same) (Above-put_sorted k (h, (size, x)) (inorder r) high above),
          ),
        )
  ]

  -- Elements, each with its bytes and its size, put one after another.
  unfoldable pub put_all : List (List ℕ × (ℕ × A)) → TreeSet A → TreeSet A
  unfolding put
  put_all [] set = set
  put_all ((bytes, (size, value)) ∷ elems) set = put_all elems (put bytes size value set).1

  -- the same on a sorted list
  abbrev pub sorted_all : List (List ℕ × (ℕ × A)) → List (Entry A) → List (Entry A)
  sorted_all [] xs = xs
  sorted_all ((bytes, (size, value)) ∷ elems) xs =
      sorted_all elems (put_sorted (hash bytes size, (size, value)) xs)

  put_all_lem :
      (elems : List (List ℕ × (ℕ × A))) (set : TreeSet A)
      → IsSearch set.root
      → set.size < 2 ^ 32
      → IsSearch (put_all elems set).root
        × (inorder (put_all elems set).root ≡ sorted_all elems (inorder set.root))
        × ((put_all elems set).size ≡ (set.size + length elems) % 2 ^ 32)
  unfolding put_all put
  put_all_lem [] set good small = (good, refl, omega arith)
  put_all_lem ((bytes, (size, value)) ∷ elems) set good small =
      let (same, search) = put_at_lem (hash bytes size) size value set.root good in
      let (search', same', count) =
        put_all_lem elems (put bytes size value set).1 search (omega arith) in
      (search', same' ∙ ap (sorted_all elems) same, omega (arith, count))

  -- After any calls of TreeSet_put on a new set, every node of the tree has smaller hashes to its
  -- left and greater ones to its right, and from left to right it is the sorted list that the same
  -- calls give, in which an element takes the place of any other with its hash. The size is the
  -- number of calls modulo 2 ^ 32, replacements included.
  pub put_all-sorted_all :
      (elems : List (List ℕ × (ℕ × A))) (sync : Bool)
      → IsSearch (put_all elems (new_tree_set sync)).root
        × (inorder (put_all elems (new_tree_set sync)).root ≡ sorted_all elems [])
        × ((put_all elems (new_tree_set sync)).size ≡ length elems % 2 ^ 32)
  put_all-sorted_all elems sync =
      let (search, same, count) = put_all_lem elems (new_tree_set sync) tt (omega arith) in
      (search, same, omega (arith, count))
