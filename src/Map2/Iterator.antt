-- ===== src/Map2/Iterator.antt =====
-- The iterator of map2.c: its pointer to the next node is the list of the items from there on.
use okto_wsd.Base.{zero, suc, List, [], ◌∷◌, Bool, true, false, Option, none, some}
use okto_wsd.Base.Int.{ℤ, pos, negsuc}
use okto_wsd.Map2.{Key}

abbrev increment : ℤ → ℤ
increment (pos n) = pos (suc n)
increment (negsuc zero) = pos 0
increment (negsuc (suc n)) = negsuc n

pub record MapIterator (V : Type 0) : Type 0 where
  pub next_node : List (Key × V)
  pub last_ret : ℤ

module _ {V : Type 0} where
  unfoldable pub iterator_new : List (Key × V) → MapIterator V
  iterator_new m = record { next_node = m; last_ret = negsuc 0 }

  unfoldable pub has_next : MapIterator V → Bool
  has_next it = elim it.next_node [ [] ↦ false | _ ∷ _ ↦ true ]

  -- `none` is the end of the list, which the caller rules out by `has_next`.
  unfoldable pub next : MapIterator V → Option (V × MapIterator V)
  next it = elim it.next_node [
    | [] ↦ none
    | (k, v) ∷ rest ↦ some (v, record { next_node = rest; last_ret = increment it.last_ret })
  ]
