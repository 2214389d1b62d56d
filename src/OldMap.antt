-- ===== src/OldMap.antt =====
-- libs/collections/src/map.c: an array of keys and values that only grows.
use okto_wsd.Base.{ℕ, ◌≡◌, arith, List, [], ◌∷◌, ◌++◌, Option, none, some, if◌then◌else◌}
use okto_wsd.Map2.{Key, str_eq}

abbrev pub map_by_val : ℕ
map_by_val = 0

abbrev pub map_by_ref : ℕ
map_by_ref = 1

-- `MI`; the map is the array of its items, which has their number.
pub record MapItem (V : Type 0) : Type 0 where
  pub key : Key
  pub val : V
  pub type : ℕ

module _ {V : Type 0} where
  abbrev pub map_new : List (MapItem V)
  map_new = []

  unfoldable pub map_add : Key → V → List (MapItem V) → List (MapItem V)
  map_add key val m = m ++ (record { key = key; val = val; type = map_by_val } ∷ [])

  -- the last item, by reference
  abbrev pub set_last : List (MapItem V) → List (MapItem V)
  set_last [] = []
  set_last (x ∷ []) = record x { type = map_by_ref } ∷ []
  set_last (x ∷ y ∷ m) = x ∷ set_last (y ∷ m)

  unfoldable pub map_dyn_add : Key → V → List (MapItem V) → List (MapItem V)
  unfolding map_add
  map_dyn_add key val m = set_last (map_add key val m)

  unfoldable pub map_get : Key → List (MapItem V) → Option V
  map_get key [] = none
  map_get key (x ∷ m) = if str_eq x.key key then some x.val else map_get key m

  -- A key that the map has keeps its value when it is added again, where MAP_add of map2.c makes
  -- the new value the one that is found.
  pub map_get-map_add :
      (key : Key) (k : Key) (v : V) (m : List (MapItem V))
      → map_get key (map_add k v m)
        ≡ elim (map_get key m) [ none ↦ if str_eq k key then some v else none | some w ↦ some w ]
  unfolding map_get map_add
  map_get-map_add key k v [] = ground arith
  map_get-map_add key k v (x ∷ m) = ground (arith, map_get-map_add key k v m)
