-- ===== src/GateIn/Msb.antt =====
-- The test that the low bytes of the target addresses are all different.
use okto_wsd.Base.{
  ℕ, zero, suc, ◌+◌, ◌<◌, ◌≤◌, ◌≡◌, ◌≢◌, refl, arith, List, Bool, true, false, get_or, Bool-cases,
  inl, inr, eq_cases,
}
use okto_wsd.GateIn.{ident_inner, ident_outer}

module _ (msb : List ℕ) where
  -- the inner loop keeps `false` only if no other entry equals the one at `i`
  inner_false :
      (i left j : ℕ) (ident : Bool)
      → ident_inner msb i left j ident ≡ false
      → (ident ≡ false) × ((k : ℕ) → j ≤ k → k < j + left → k ≢ i → get_or msb i 0 ≢ get_or msb k 0)
  unfolding ident_inner
  inner_false i zero j ident h = (h, λ k p q. absurd (omega arith))
  inner_false i (suc left) j ident h =
      let rest = inner_false i left (j + 1) ident in
      (
        ground (arith, rest),
        λ k p q ne e. elim (eq_cases k j) [
          | inl here ↦ absurd (ground (arith, rest))
          | inr there ↦ (rest (ground arith)).1 k (omega arith) (omega arith) ne e
        ],
      )

  inner_keeps :
      (i left j : ℕ)
      → ((k : ℕ) → j ≤ k → k < j + left → k ≢ i → get_or msb i 0 ≢ get_or msb k 0)
      → ident_inner msb i left j false ≡ false
  unfolding ident_inner
  inner_keeps i zero j h = refl
  inner_keeps i (suc left) j h =
      ground (arith, h j, inner_keeps i left (j + 1) (λ k p q. h k (omega arith) (omega arith)))

  inner_true : (i left j : ℕ) → ident_inner msb i left j true ≡ true
  unfolding ident_inner
  inner_true i zero j = refl
  inner_true i (suc left) j = ground (arith, inner_true i left (j + 1))

  outer_true : (left i : ℕ) → ident_outer msb left i true ≡ true
  unfolding ident_outer
  outer_true zero i = refl
  outer_true (suc left) i = rw (inner_true i 5 0) (outer_true left (i + 1))

  pub outer_false :
      (left i : ℕ)
      → ident_outer msb left i false ≡ false
      → (k j : ℕ) → i ≤ k
      → k < i + left
      → j < 5
      → j ≢ k
      → get_or msb k 0 ≢ get_or msb j 0
  unfolding ident_outer
  outer_false zero i h k j p q b ne = absurd (omega arith)
  outer_false (suc left) i h k j p q b ne = elim (Bool-cases (ident_inner msb i 5 0 false)) [
    | inl e ↦ absurd (ground (arith, outer_true left (i + 1)))
    | inr e ↦ elim (eq_cases k i) [
      | inl here ↦ rw here ((inner_false i 5 0 false e).1 j (omega arith) b (ground arith))
      | inr there ↦ outer_false left (i + 1) (ground arith) k j (omega arith) (omega arith) b ne
    ]
  ]

  pub outer_keeps :
      (left i : ℕ)
      → ((k j : ℕ) → j < 5 → i ≤ k → k < i + left → j ≢ k → get_or msb k 0 ≢ get_or msb j 0)
      → ident_outer msb left i false ≡ false
  unfolding ident_outer
  outer_keeps zero i h = refl
  outer_keeps (suc left) i h =
      rw (inner_keeps i 5 0 (λ k p q ne. h i k (omega arith) (omega arith) (omega arith) ne))
        (outer_keeps left (i + 1) (λ k j b p q ne. h k j b (omega arith) (omega arith) ne))
