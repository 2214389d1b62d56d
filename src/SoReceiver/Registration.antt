-- ===== src/SoReceiver/Registration.antt =====
-- so_receiver.c: the socket of a thread stands in the map of sockets while the thread runs.
use okto_wsd.Base.{
  ℕ, ◌+◌, ◌<◌, ◌^◌, ◌≡◌, ◌≢◌, refl, ap, ◌∙◌, arith, List, [], ◌∷◌, length, Bool-cases, inl, inr,
}
use okto_wsd.Itoa.{Sprintf, itoa2, itoa2_injective}
use okto_wsd.Map2
use okto_wsd.Map2.{Key, str_eq}
use okto_wsd.Map2.Laws.{without, remove_lem, str_eq_refl, eq_of_str_eq}

module _ (c : Sprintf) where
  -- The thread's first calls, and its last ones.
  unfoldable pub register : ℕ → List (Key × ℕ) → List (Key × ℕ)
  register socket m = Map2.add (itoa2 c socket) socket m

  unfoldable pub unregister : ℕ → List (Key × ℕ) → List (Key × ℕ)
  unregister socket m = (Map2.remove (itoa2 c socket) m).1

  -- sockets registered one after another
  abbrev pub register_all : List ℕ → List (Key × ℕ) → List (Key × ℕ)
  register_all [] m = m
  register_all (socket ∷ sockets) m = register socket (register_all sockets m)

  -- Sockets that fit 32 bits and differ from one.
  abbrev pub AllOther : ℕ → List ℕ → Type 0
  AllOther socket [] = Unit
  AllOther socket (other ∷ others) = (other < 2 ^ 32) × (other ≢ socket) × AllOther socket others

  without-register_all :
      (socket : ℕ) (others : List ℕ) (m : List (Key × ℕ))
      → socket < 2 ^ 32
      → AllOther socket others
      → without (itoa2 c socket) (register_all others (register socket m)) ≡ register_all others m
  unfolding register Map2.add
  without-register_all socket [] m p all = rw (str_eq_refl (itoa2 c socket)) refl
  without-register_all socket (other ∷ others) m p (q, ne, all) =
      elim (Bool-cases (str_eq (itoa2 c other) (itoa2 c socket))) [
        | inl same ↦ absurd (
            ne (
              itoa2_injective c other socket q p
                (eq_of_str_eq (itoa2 c other) (itoa2 c socket) same)))
        | inr differ ↦
            rw differ
              (ap (λ l. (itoa2 c other, other) ∷ l) (without-register_all socket others m p all))
      ]

  length-register_all :
      (others : List ℕ) (m : List (Key × ℕ))
      → length (register_all others m) ≡ length others + length m
  unfolding register Map2.add
  length-register_all [] m = omega arith
  length-register_all (other ∷ others) m = omega (arith, length-register_all others m)

  -- When a thread ends after other sockets have been registered, its socket alone leaves the map
  -- of fewer than 2 ^ 16 items, and what the map held for it before is back.
  pub unregister_lem :
      (socket : ℕ) (others : List ℕ) (m : List (Key × ℕ))
      → socket < 2 ^ 32
      → AllOther socket others
      → length others + length m + 1 < 2 ^ 16
      → unregister socket (register_all others (register socket m)) ≡ register_all others m
  unfolding unregister
  unregister_lem socket others m p all few =
      let held : length (register_all others (register socket m)) ≡ length others + (length m + 1) =
        length-register_all others (register socket m)
        ∙ ap (λ n. length others + n) (unfold register Map2.add in omega arith) in
      ap (λ r. r.1)
        (remove_lem (itoa2 c socket) (register_all others (register socket m)) (omega arith))
      ∙ without-register_all socket others m p all
