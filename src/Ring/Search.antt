-- ===== src/Ring/Search.antt =====
-- Looking for a preamble at the end of what a ring holds: a first byte and seven times 0xaa, as both
-- kinds of packets have it.
use okto_wsd.Base.{
  replicate, zero, get_or-append_left, get_or, get_or-append_right, get_or-drop, get_or-take,
  length-append, drop-append, ℕ, suc, ◌+◌, ◌-◌, ◌≤◌, ◌<◌, ◌≡◌, ◌≢◌, refl, ap, ◌∙◌, sym, arith, List,
  [], ◌∷◌, ◌++◌, Bool, true, false, ◌&&◌, not, leb, leb-true, leb-false, le_cases, length, take,
  drop, Bool-cases, inl, inr,
}
use mathlib.Core.List.{append_assoc}
use okto_wsd.Ring.Compare.{bytes_eq, eq_of_bytes_eq}

abbrev pub preamble : ℕ → List ℕ
preamble first = first ∷ 0xaa ∷ 0xaa ∷ 0xaa ∷ 0xaa ∷ 0xaa ∷ 0xaa ∷ 0xaa ∷ []

grown : (c : List ℕ) (b : ℕ) → length (c ++ (b ∷ [])) ≡ suc (length c)
grown c b = omega (arith, length-append c (b ∷ []))

-- The bytes held end in a preamble.
abbrev pub found : ℕ → List ℕ → Bool
found first c = leb 8 (length c) && bytes_eq (take 8 (drop (length c - 8) c)) (preamble first)

-- No prefix of the bytes, behind what is held, ends in a preamble.
abbrev pub quiet : ℕ → List ℕ → List ℕ → Bool
quiet first c [] = true
quiet first c (b ∷ bs) = not (found first (c ++ (b ∷ []))) && quiet first (c ++ (b ∷ [])) bs

module _ (first : ℕ) (differs : first ≢ 0xaa) where
  pub found_long :
      (c : List ℕ) (n : ℕ)
      → length c ≡ n
      → 8 ≤ n
      → found first c ≡ bytes_eq (take 8 (drop (n - 8) c)) (preamble first)
  found_long c n e h = rw (e, leb-true 8 n h)

  pub found_short : (c : List ℕ) (n : ℕ) → length c ≡ n → n < 8 → found first c ≡ false
  found_short c n e h = rw (e, leb-false 8 n h)

  pub quiet_step :
      (c : List ℕ) (b : ℕ) (bs : List ℕ)
      → quiet first c (b ∷ bs) ≡ true
      → (found first (c ++ (b ∷ [])) ≡ false) × (quiet first (c ++ (b ∷ [])) bs ≡ true)
  quiet_step c b bs h = elim (Bool-cases (found first (c ++ (b ∷ [])))) [
    | inl e ↦ absurd (cc (rw e at h))
    | inr e ↦ (e, rw e at h)
  ]

  -- Where what is held ends in a preamble, the byte at each index of its last eight is the
  -- preamble's: here the first byte of those that came last.
  found_lem :
      (c q : List ℕ)
      → 0 < length q
      → length q ≤ 8
      → found first (c ++ q) ≡ true
      → get_or q 0 0 ≡ get_or (preamble first) (8 - length q) 0
  found_lem c q pos few h = elim (le_cases 8 (length (c ++ q))) [
    | inl long ↦
        sym (get_or-append_right c q 0 0)
        ∙ ap (λ k. get_or (c ++ q) k 0) (omega (arith, length-append c q))
        ∙ sym (get_or-drop (length (c ++ q) - 8) (c ++ q) (8 - length q) 0)
        ∙ sym (get_or-take 8 (drop (length (c ++ q) - 8) (c ++ q)) (8 - length q) 0 (omega arith))
        ∙ ap (λ l. get_or l (8 - length q) 0)
            (eq_of_bytes_eq (take 8 (drop (length (c ++ q) - 8) (c ++ q))) (preamble first)
              (sym (found_long (c ++ q) (length (c ++ q)) refl long) ∙ h))
    | inr short ↦ cc (found_short (c ++ q) (length (c ++ q)) refl short)
  ]

  -- Eight bytes that are a preamble are found behind anything.
  pub found_preamble : (c : List ℕ) → found first (c ++ (preamble first)) ≡ true
  found_preamble c =
      found_long (c ++ (preamble first)) (length c + 8) (length-append c (preamble first))
        (omega arith)
      ∙ ap (λ k. bytes_eq (take 8 (drop k (c ++ (preamble first)))) (preamble first))
          {x = length c + 8 - 8} {y = length c} (omega arith)
      ∙ ap (λ l. bytes_eq (take 8 l) (preamble first)) (drop-append c (preamble first))
      ∙ ground arith

  -- Behind its first byte a preamble has only one other byte.
  preamble_rest : (i : ℕ) → 0 < i → i < 8 → get_or (preamble first) i 0 ≡ 0xaa
  preamble_rest zero a b = absurd (omega arith)
  preamble_rest (suc zero) a b = refl
  preamble_rest (suc (suc zero)) a b = refl
  preamble_rest (suc (suc (suc zero))) a b = refl
  preamble_rest (suc (suc (suc (suc zero)))) a b = refl
  preamble_rest (suc (suc (suc (suc (suc zero))))) a b = refl
  preamble_rest (suc (suc (suc (suc (suc (suc zero)))))) a b = refl
  preamble_rest (suc (suc (suc (suc (suc (suc (suc zero))))))) a b = refl
  preamble_rest (suc (suc (suc (suc (suc (suc (suc (suc i)))))))) a b = absurd (omega arith)

  -- So no shorter beginning of a preamble completes one, whatever stood before it.
  pub missed :
      (c q : List ℕ)
      → 0 < length q
      → length q < 8
      → get_or q 0 0 ≡ first
      → found first (c ++ q) ≡ false
  missed c q pos few e = elim (Bool-cases (found first (c ++ q))) [
    | inl h ↦ absurd (
        omega (
          arith,
          found_lem c q pos (omega arith) h,
          preamble_rest (8 - length q) (omega arith) (omega arith),
        ))
    | inr h ↦ h
  ]

  quiet_rest :
      (n : ℕ) (c q : List ℕ)
      → 0 < length q
      → length q + n < 8
      → get_or q 0 0 ≡ first
      → quiet first (c ++ q) (replicate n 0xaa) ≡ true
  quiet_rest zero c q pos few e = refl
  quiet_rest (suc n) c q pos few e =
      let q' : List ℕ = q ++ (0xaa ∷ []) in
      let e' : get_or q' 0 0 ≡ first = get_or-append_left q (0xaa ∷ []) 0 0 pos ∙ e in
      let l : length q' ≡ suc (length q) = grown q 0xaa in
      rw (append_assoc c q (0xaa ∷ []), missed c q' (omega arith) (omega arith) e')
        (quiet_rest n c q' (omega arith) (omega arith) e')

  pub quiet_seven : (c : List ℕ) → quiet first c (first ∷ replicate 6 0xaa) ≡ true
  quiet_seven c =
      rw (missed c (first ∷ []) (omega arith) (omega arith) refl)
        (quiet_rest 6 c (first ∷ []) (omega arith) (omega arith) refl)
