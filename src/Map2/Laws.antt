-- ===== src/Map2/Laws.antt =====
-- What the map promises: the newest item of a key wins, and removing it uncovers the next.
use okto_wsd.Base.{
  ℕ, zero, suc, ◌+◌, ◌-◌, ◌^◌, ◌<◌, ◌≤◌, Option-cases, ◌≡◌, refl, ap, arith, List, [], ◌∷◌, true,
  none, some, if◌then◌else◌, length, Bool-cases, inl, inr,
}
use okto_wsd.Base.Word.{u16}
use okto_wsd.Map2.{Key, str_eq, get, add, remove, find_from, remove_at}

pub str_eq_refl : (k : Key) → str_eq k k ≡ true
str_eq_refl [] = refl
str_eq_refl (x ∷ k) = ground (arith, str_eq_refl k)

pub eq_of_str_eq : (j k : Key) → str_eq j k ≡ true → j ≡ k
eq_of_str_eq [] [] h = refl
eq_of_str_eq [] (y ∷ k) h = cc
eq_of_str_eq (x ∷ j) [] h = cc
eq_of_str_eq (x ∷ j) (y ∷ k) h = ground (arith, eq_of_str_eq j k)

module _ {V : Type 0} where
  -- Looking a key up behind `MAP_add`: the new value for its key, the old answer for others.
  pub get-add :
      (k j : Key) (v : V) (m : List (Key × V))
      → get j (add k v m) ≡ (if str_eq k j then some v else get j m)
  unfolding get add
  get-add k j v m = refl

  -- the map without the first item of a key
  abbrev pub without : Key → List (Key × V) → List (Key × V)
  without key [] = []
  without key ((k, v) ∷ m) = if str_eq k key then m else (k, v) ∷ without key m

  find_from-none :
      (key : Key) (m : List (Key × V)) (i : ℕ)
      → find_from key m i ≡ none
      → (get key m ≡ none) × (without key m ≡ m)
  unfolding find_from get
  find_from-none key [] i h = (refl, refl)
  find_from-none key ((k, v) ∷ m) i h = ground (arith, find_from-none key m (u16 (i + 1)))

  remove_at-cons :
      (n : ℕ) (x : Key × V) (m : List (Key × V))
      → 0 < n
      → remove_at n (x ∷ m) ≡ x ∷ remove_at (n - 1) m
  unfolding remove_at
  remove_at-cons zero x m h = absurd (omega arith)
  remove_at-cons (suc n) x m h = ap (λ k. x ∷ remove_at k m) (omega arith)

  find_from-some :
      (key : Key) (m : List (Key × V)) (i j : ℕ) (v : V)
      → i + length m < 2 ^ 16
      → find_from key m i ≡ some (v, j)
      → (i ≤ j) × (get key m ≡ some v) × (remove_at (j - i) m ≡ without key m)
  unfolding find_from get
  find_from-some key [] i j v b h = cc
  find_from-some key ((k, w) ∷ m) i j v b h = elim (Bool-cases (str_eq k key)) [
    | inl e ↦ unfold remove_at in ground arith
    | inr e ↦ ground (
      arith,
      find_from-some key m (i + 1) j v (omega arith),
      remove_at-cons (j - i) (k, w) m,
      ap (λ n. remove_at n m) {x = j - i - 1} {y = j - (i + 1)} (omega arith),
    )
  ]

  -- `MAP_remove` of a map of fewer than 2 ^ 16 items returns what `MAP_get` finds and takes the
  -- first item of the key out, so that an older one of the key is found from then on.
  pub remove_lem :
      (key : Key) (m : List (Key × V))
      → length m < 2 ^ 16
      → remove key m ≡ (get key m, without key m)
  unfolding remove
  remove_lem key m b = elim (Option-cases (find_from key m 0)) [
    | inl e ↦ ground (arith, find_from-none key m 0 e)
    | inr ((v, j), e) ↦ ground (arith, find_from-some key m 0 j v (omega arith) e)
  ]

  -- `MAP_remove` undoes `MAP_add` of the same key, whatever the map held for it.
  pub remove-add :
      (key : Key) (v : V) (m : List (Key × V))
      → length m + 1 < 2 ^ 16
      → remove key (add key v m) ≡ (some v, m)
  unfolding add get
  remove-add key v m b =
      rw (remove_lem key (add key v m) (omega arith)) (ground (arith, str_eq_refl key))
