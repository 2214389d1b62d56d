-- ===== src/Map2/Calls.antt =====
-- The map over its nodes and the map over the list of its items cannot be told apart.
use okto_wsd.Base.{
  ℕ, zero, suc, ◌+◌, ◌^◌, ◌<◌, ◌≤◌, ◌≡◌, inl, inr, Option-cases, refl, ap, ◌∙◌, arith, List, [],
  ◌∷◌, Bool, Option, none, some, length,
}
use okto_wsd.Heap.{Heap}
use okto_wsd.Heap.Alloc.{Alloc}
use okto_wsd.Heap.Cells.{Cells, items, node, frame-store, not_has_of_none, load-store_same}
use okto_wsd.LinkedList
use okto_wsd.LinkedList.{LinkedList, new_list}
use okto_wsd.LinkedList.Cut.{IsList}
use okto_wsd.Map2
use okto_wsd.Map2.{Key}
use okto_wsd.Map2.Nodes
use okto_wsd.Map2.Loops.{get_lem, contain_lem, remove_map, length-items}

-- the calls on a map, one after another, and what they return
pub data MapOp (V : Type 0) : Type 0 where
  map_get map_remove map_contain : Key → MapOp V
  map_add : Key → V → MapOp V

pub data MapSeen (V : Type 0) : Type 0 where
  map_nothing : MapSeen V
  map_value : Option V → MapSeen V
  map_found : Bool → MapSeen V

module _ {V : Type 0} where
  -- on the list of the items
  abbrev pub call_items : MapOp V → List (Key × V) → MapSeen V × List (Key × V)
  call_items (map_get key) m = (map_value (Map2.get key m), m)
  call_items (map_remove key) m = (map_value (Map2.remove key m).0, (Map2.remove key m).1)
  call_items (map_contain key) m = (map_found (Map2.contain key m), m)
  call_items (map_add key v) m = (map_nothing, Map2.add key v m)

  abbrev pub calls_items : List (MapOp V) → List (Key × V) → List (MapSeen V) × List (Key × V)
  calls_items [] m = ([], m)
  calls_items (op ∷ ops) m =
      let (seen, m') = call_items op m in let (rest, m'') = calls_items ops m' in (seen ∷ rest, m'')

  -- on the nodes
  unfoldable pub call :
      Alloc (Key × V)
      → ℕ
      → MapOp V
      → LinkedList
      → Heap (Key × V)
      → Option (MapSeen V × (LinkedList × Heap (Key × V)))
  unfolding Nodes.get Nodes.remove Nodes.contain Nodes.add
  call a fuel (map_get key) m h = elim (Nodes.get fuel key m h) [
    | none ↦ none
    | some x ↦ some (map_value x, (m, h))
  ]
  call a fuel (map_remove key) m h = elim (Nodes.remove fuel key m h) [
    | none ↦ none
    | some (x, t) ↦ some (map_value x, t)
  ]
  call a fuel (map_contain key) m h = elim (Nodes.contain fuel key m h) [
    | none ↦ none
    | some b ↦ some (map_found b, (m, h))
  ]
  call a fuel (map_add key v) m h = some (map_nothing, Nodes.add a key v m h)

  unfoldable pub calls :
      Alloc (Key × V)
      → ℕ
      → List (MapOp V)
      → LinkedList
      → Heap (Key × V)
      → Option (List (MapSeen V) × (LinkedList × Heap (Key × V)))
  unfolding call
  calls a fuel [] m h = some ([], (m, h))
  calls a fuel (op ∷ ops) m h = elim (call a fuel op m h) [
    | none ↦ none
    | some (seen, (m', h')) ↦ elim (calls a fuel ops m' h') [
      | none ↦ none
      | some (rest, t) ↦ some (seen ∷ rest, t)
    ]
  ]

  add_lem :
      (a : Alloc (Key × V)) (key : Key) (x : V) (m : LinkedList) (h : Heap (Key × V))
      (xs : Cells (Key × V))
      → IsList m h xs
      → IsList (Nodes.add a key x m h).0 (Nodes.add a key x m h).1 ((a.fresh h, (key, x)) ∷ xs)
  unfolding Nodes.add LinkedList.prepend LinkedList.prepend_at
  add_lem a key x m h xs v =
      let p = a.fresh h in
      let out = not_has_of_none h p xs v.linked (a.fresh_unused h) in
      record {
        linked = (
          a.fresh_some h,
          load-store_same h p (node (key, x) m.head) ∙ ap (λ q. some (node (key, x) q)) v.head,
          out,
          frame-store h p (node (key, x) m.head) xs v.linked out,
        );
        head = refl;
        count = omega (arith, v.count);
      }

  items-add :
      (a : Alloc (Key × V)) (key : Key) (x : V) (h : Heap (Key × V)) (xs : Cells (Key × V))
      → items ((a.fresh h, (key, x)) ∷ xs) ≡ Map2.add key x (items xs)
  unfolding Map2.add Map2.prepend
  items-add a key x h xs = refl

  length-remove : (n : ℕ) (m : List (Key × V)) → length (Map2.remove_at n m) ≤ length m
  unfolding Map2.remove_at
  length-remove zero [] = omega arith
  length-remove (suc n) [] = omega arith
  length-remove zero (x ∷ m) = omega arith
  length-remove (suc n) (x ∷ m) = omega (arith, length-remove n m)

  length-call_items :
      (op : MapOp V) (m : List (Key × V)) → length (call_items op m).1 ≤ suc (length m)
  unfolding Map2.remove Map2.add Map2.prepend
  length-call_items (map_get key) m = omega arith
  length-call_items (map_contain key) m = omega arith
  length-call_items (map_add key v) m = omega arith
  length-call_items (map_remove key) m = elim (Option-cases (Map2.find_from key m 0)) [
    | inl e ↦ ground (arith, e)
    | inr ((v, j), e) ↦ ground (arith, e, length-remove j m)
  ]

  call_lem :
      (a : Alloc (Key × V)) (fuel : ℕ) (op : MapOp V) (m : LinkedList) (h : Heap (Key × V))
      (xs : Cells (Key × V))
      → IsList m h xs
      → length xs < fuel
      → length xs < 2 ^ 16
      → (m' : LinkedList) × (h' : Heap (Key × V)) × (ys : Cells (Key × V)) × (call a fuel op m h
          ≡ some ((call_items op (items xs)).0, (m', h')))
        × IsList m' h' ys
        × (items ys ≡ (call_items op (items xs)).1)
  unfolding call
  call_lem a fuel (map_get key) m h xs v enough small =
      (m, h, xs, ground (arith, get_lem fuel key m h xs v enough), v, refl)
  call_lem a fuel (map_contain key) m h xs v enough small =
      (m, h, xs, ground (arith, contain_lem fuel key m h xs v enough), v, refl)
  call_lem a fuel (map_add key x) m h xs v enough small = (
    (Nodes.add a key x m h).0,
    (Nodes.add a key x m h).1,
    (a.fresh h, (key, x)) ∷ xs,
    refl,
    add_lem a key x m h xs v,
    items-add a key x h xs,
  )
  call_lem a fuel (map_remove key) m h xs v enough small =
      let (m', h', ys, eq, v', same) = remove_map fuel key m h xs v enough small in
      (m', h', ys, ground (arith, eq), v', same)

  calls_cons :
      (a : Alloc (Key × V)) (fuel : ℕ) (op : MapOp V) (ops : List (MapOp V)) (m m1 m2 : LinkedList)
      (h h1 h2 : Heap (Key × V)) (seen : MapSeen V) (rest : List (MapSeen V))
      → call a fuel op m h ≡ some (seen, (m1, h1))
      → calls a fuel ops m1 h1 ≡ some (rest, (m2, h2))
      → calls a fuel (op ∷ ops) m h ≡ some (seen ∷ rest, (m2, h2))
  unfolding calls
  calls_cons a fuel op ops m m1 m2 h h1 h2 seen rest e1 e2 = ground (arith, e1, e2)

  calls_lem :
      (a : Alloc (Key × V)) (fuel : ℕ) (ops : List (MapOp V)) (m : LinkedList) (h : Heap (Key × V))
      (xs : Cells (Key × V))
      → IsList m h xs
      → length xs + length ops < fuel
      → length xs + length ops < 2 ^ 16
      → (m' : LinkedList) × (h' : Heap (Key × V)) × (ys : Cells (Key × V)) × (calls a fuel ops m h
          ≡ some ((calls_items ops (items xs)).0, (m', h')))
        × IsList m' h' ys
        × (items ys ≡ (calls_items ops (items xs)).1)
  unfolding calls
  calls_lem a fuel [] m h xs v enough small = (m, h, xs, refl, v, refl)
  calls_lem a fuel (op ∷ ops) m h xs v enough small =
      let (m1, h1, ys, eq1, v1, same1) = call_lem a fuel op m h xs v (omega arith) (omega arith) in
      let grown : length ys ≤ suc (length xs) = omega (
        arith,
        length-items ys,
        length-items xs,
        ap length same1,
        length-call_items op (items xs),
      ) in
      let (m2, h2, zs, eq2, v2, same2) =
        calls_lem a fuel ops m1 h1 ys v1 (omega arith) (omega arith) in
      (
        m2,
        h2,
        zs,
        calls_cons a fuel op ops m m1 m2 h h1 h2 _ _ eq1
            (eq2 ∙ ap (λ l. some ((calls_items ops l).0, (m2, h2))) same1),
        v2,
        same2 ∙ ap (λ l. (calls_items ops l).1) same1,
      )

  -- Any fewer than 2 ^ 16 calls of MAP_get, MAP_add, MAP_remove and MAP_contain on a new map, with
  -- more fuel than calls, go through the nodes without a fault and return what the same calls on
  -- the list of the items return; the nodes then hold exactly that list.
  pub calls-calls_items :
      (a : Alloc (Key × V)) (fuel : ℕ) (ops : List (MapOp V)) (h : Heap (Key × V))
      → length ops < fuel
      → length ops < 2 ^ 16
      → (m' : LinkedList) × (h' : Heap (Key × V)) × (ys : Cells (Key × V)) × (calls a fuel ops
            new_list h
          ≡ some ((calls_items ops []).0, (m', h')))
        × IsList m' h' ys
        × (items ys ≡ (calls_items ops []).1)
  calls-calls_items a fuel ops h enough small =
      calls_lem a fuel ops new_list h [] (record { linked = tt; head = refl; count = refl })
        (omega arith) (omega arith)
