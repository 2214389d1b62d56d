-- ===== src/Map2/Loops.antt =====
-- The loops over the nodes do what the loops over the list of items do.
use okto_wsd.Base.{
  ℕ, zero, suc, ◌+◌, ◌^◌, ◌<◌, ◌≡◌, refl, ap, sym, ◌∙◌, arith, List, [], ◌∷◌, true, some, length,
  inl, inr, Bool-cases, Option-cases,
}
use okto_wsd.Base.Int.{ℤ, negsuc}
use okto_wsd.Base.Word.{u16}
use okto_wsd.Heap.{Heap, Ptr}
use okto_wsd.Heap.Cells.{Cells, items, head_of, IsLinked}
use okto_wsd.LinkedList
use okto_wsd.LinkedList.{LinkedList, ListIterator, next_ret}
use okto_wsd.LinkedList.Cut.{IsList, without, items-without, remove_lem}
use okto_wsd.Map2
use okto_wsd.Map2.{Key, str_eq}
use okto_wsd.Map2.Nodes

module _ {V : Type 0} where
  -- one turn of the loops
  next_lem :
      (a : Ptr) (x : Key × V) (xs : Cells (Key × V)) (last : ℤ) (h : Heap (Key × V))
      → IsLinked h ((a, x) ∷ xs)
      → (LinkedList.has_next (record { next_node = a; last_ret = last }) ≡ true)
        × (LinkedList.next (record { next_node = a; last_ret = last }) h
            ≡ some (x, record { next_node = head_of xs; last_ret = next_ret last }))
  unfolding LinkedList.has_next LinkedList.next
  next_lem a x xs last h (ne, at, apart, s) = (ground arith, ground (arith, at))

  get_loop_lem :
      (fuel : ℕ) (key : Key) (last : ℤ) (h : Heap (Key × V)) (xs : Cells (Key × V))
      → IsLinked h xs
      → length xs < fuel
      → Nodes.get_loop fuel key (record { next_node = head_of xs; last_ret = last }) h
        ≡ some (Map2.get key (items xs))
  unfolding Nodes.get_loop Map2.get
  get_loop_lem zero key last h xs s enough = absurd (omega arith)
  get_loop_lem (suc fuel) key last h [] s enough = unfold LinkedList.has_next in refl
  get_loop_lem (suc fuel) key last h ((a, (k, v)) ∷ xs) s enough =
      let (more, stepped) = next_lem a (k, v) xs last h s in
      let rest = get_loop_lem fuel key (next_ret last) h xs s.3 (omega arith) in
      ground (arith, more, stepped, rest)

  find_loop_lem :
      (fuel : ℕ) (key : Key) (last : ℤ) (index : ℕ) (h : Heap (Key × V)) (xs : Cells (Key × V))
      → IsLinked h xs
      → length xs < fuel
      → Nodes.find_loop fuel key (record { next_node = head_of xs; last_ret = last }) index h
        ≡ some (Map2.find_from key (items xs) index)
  unfolding Nodes.find_loop Map2.find_from
  find_loop_lem zero key last index h xs s enough = absurd (omega arith)
  find_loop_lem (suc fuel) key last index h [] s enough = unfold LinkedList.has_next in refl
  find_loop_lem (suc fuel) key last index h ((a, (k, v)) ∷ xs) s enough =
      let (more, stepped) = next_lem a (k, v) xs last h s in
      let rest = find_loop_lem fuel key (next_ret last) (u16 (index + 1)) h xs s.3 (omega arith) in
      ground (arith, more, stepped, rest)

  contain_loop_lem :
      (fuel : ℕ) (key : Key) (last : ℤ) (h : Heap (Key × V)) (xs : Cells (Key × V))
      → IsLinked h xs
      → length xs < fuel
      → Nodes.contain_loop fuel key (record { next_node = head_of xs; last_ret = last }) h
        ≡ some (Map2.contain key (items xs))
  unfolding Nodes.contain_loop Map2.contain
  contain_loop_lem zero key last h xs s enough = absurd (omega arith)
  contain_loop_lem (suc fuel) key last h [] s enough = unfold LinkedList.has_next in refl
  contain_loop_lem (suc fuel) key last h ((a, (k, v)) ∷ xs) s enough =
      let (more, stepped) = next_lem a (k, v) xs last h s in
      let rest = contain_loop_lem fuel key (next_ret last) h xs s.3 (omega arith) in
      ground (arith, more, stepped, rest)

  remove_at-without : (n : ℕ) (m : List (Key × V)) → Map2.remove_at n m ≡ without n m
  unfolding Map2.remove_at
  remove_at-without zero [] = refl
  remove_at-without (suc n) [] = refl
  remove_at-without zero (x ∷ m) = refl
  remove_at-without (suc n) (x ∷ m) = ap (λ l. x ∷ l) (remove_at-without n m)

  find_from-lt :
      (key : Key) (m : List (Key × V)) (i j : ℕ) (v : V)
      → i + length m < 2 ^ 16
      → Map2.find_from key m i ≡ some (v, j)
      → j < i + length m
  unfolding Map2.find_from
  find_from-lt key [] i j v b h = cc
  find_from-lt key ((k, w) ∷ m) i j v b h = elim (Bool-cases (str_eq k key)) [
    | inl e ↦ ground arith
    | inr e ↦ ground (arith, find_from-lt key m (i + 1) j v (omega arith))
  ]

  pub length-items : (xs : Cells (Key × V)) → length (items xs) ≡ length xs
  length-items [] = refl
  length-items (x ∷ xs) = ap suc (length-items xs)

  -- Each function of the map, on the nodes of a list of fewer than 2 ^ 16 items.
  module _ (fuel : ℕ) (key : Key) (this : LinkedList) (h : Heap (Key × V)) (xs : Cells (Key × V))
      (v : IsList this h xs) (enough : length xs < fuel) where
    pub get_lem : Nodes.get fuel key this h ≡ some (Map2.get key (items xs))
    unfolding Nodes.get LinkedList.iterator
    get_lem = rw v.head (get_loop_lem fuel key (negsuc 0) h xs v.linked enough)

    pub contain_lem : Nodes.contain fuel key this h ≡ some (Map2.contain key (items xs))
    unfolding Nodes.contain LinkedList.iterator
    contain_lem = rw v.head (contain_loop_lem fuel key (negsuc 0) h xs v.linked enough)

    find_lem :
        Nodes.find_loop fuel key (LinkedList.iterator this) 0 h
        ≡ some (Map2.find_from key (items xs) 0)
    unfolding LinkedList.iterator
    find_lem = rw v.head (find_loop_lem fuel key (negsuc 0) 0 h xs v.linked enough)

    remove_found_lem :
        (w : V) (j : ℕ)
        → j < length xs
        → (this' : LinkedList) × (h' : Heap (Key × V)) × (ys : Cells (Key × V))
          × (Nodes.remove_found (some (w, j)) this h ≡ some (some w, (this', h')))
          × IsList this' h' ys
          × (items ys ≡ Map2.remove_at j (items xs))
    unfolding Nodes.remove_found
    remove_found_lem w j small =
        let (x, this', h', eq, v', at) = remove_lem j this h xs v small in
        (
          this',
          h',
          without j xs,
          ground (arith, eq),
          v',
          items-without j xs ∙ sym (remove_at-without j (items xs)),
        )

    pub remove_map :
        length xs < 2 ^ 16
        → (this' : LinkedList) × (h' : Heap (Key × V)) × (ys : Cells (Key × V)) × (Nodes.remove fuel
              key this h
            ≡ some ((Map2.remove key (items xs)).0, (this', h')))
          × IsList this' h' ys
          × (items ys ≡ (Map2.remove key (items xs)).1)
    unfolding Nodes.remove Nodes.remove_found Map2.remove
    remove_map small = elim (Option-cases (Map2.find_from key (items xs) 0)) [
      | inl e ↦ (this, h, xs, ground (arith, find_lem, e), v, ground (arith, e))
      | inr ((w, j), e) ↦
          let low = find_from-lt key (items xs) 0 j w (omega (arith, length-items xs)) e in
          let (this', h', ys, eq, v', same) =
            remove_found_lem w j (omega (arith, low, length-items xs)) in
          (this', h', ys, ground (arith, find_lem, e, eq), v', ground (arith, e, same))
    ]
