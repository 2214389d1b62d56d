-- ===== src/Ring/Window.antt =====
-- The bytes that a stretch of the ring holds, oldest first.
use okto_wsd.Base.{
  ℕ, zero, suc, ◌-◌, ◌^◌, ◌≤◌, ◌<◌, ◌≡◌, refl, ap, ap₂, ◌∙◌, arith, List, [], ◌∷◌, ◌++◌, length,
  get_or, set, take, drop, get_or-set_self, get_or-set_ne,
}
use okto_wsd.Ring.{Ring, next, data_length, walk}
use okto_wsd.Ring.Inv.{place, next-lt, place-next, place-ne}

module _ (buffer : List ℕ) (size : ℕ) where
  -- `n` bytes from the position `h` on
  abbrev pub window : ℕ → ℕ → List ℕ
  window zero h = []
  window (suc n) h = get_or buffer h 0 ∷ window n (next size h)

  pub length-window : (n h : ℕ) → length (window n h) ≡ n
  length-window zero h = refl
  length-window (suc n) h = ap suc (length-window n (next size h))

  place-zero : (h : ℕ) → h < size → place size h 0 ≡ h
  place-zero h p = ground arith

  -- the byte at an index
  pub get_or-window :
      (n h k : ℕ)
      → size < 2 ^ 16
      → h < size
      → n ≤ size
      → k < n
      → get_or (window n h) k 0 ≡ get_or buffer (place size h k) 0
  get_or-window zero h k s p q lt = absurd (omega arith)
  get_or-window (suc n) h zero s p q lt = ap (λ i. get_or buffer i 0) (sym_place h p)
    where
      sym_place : (h : ℕ) → h < size → h ≡ place size h 0
      sym_place h p = ground arith
  get_or-window (suc n) h (suc k) s p q lt =
      get_or-window n (next size h) k s (next-lt size h p) (omega arith) (omega arith)
      ∙ ap (λ i. get_or buffer i 0) (place-next size h k s p (omega arith))

  -- a longer window ends in the byte at its last place
  pub window-suc :
      (n h : ℕ)
      → size < 2 ^ 16
      → h < size
      → n < size
      → window (suc n) h ≡ window n h ++ (get_or buffer (place size h n) 0 ∷ [])
  window-suc zero h s p q = ap (λ i. get_or buffer i 0 ∷ []) (ground arith)
  window-suc (suc n) h s p q =
      ap (λ l. get_or buffer h 0 ∷ l)
        (window-suc n (next size h) s (next-lt size h p) (omega arith)
          ∙ ap (λ i. window n (next size h) ++ (get_or buffer i 0 ∷ []))
              (place-next size h n s p (omega arith)))

-- A write at a place behind a window leaves the window alone.
pub window-set :
    (buffer : List ℕ) (size b n m h : ℕ)
    → size < 2 ^ 16
    → h < size
    → n ≤ m
    → m < size
    → window (set buffer (place size h m) b) size n h ≡ window buffer size n h
window-set buffer size b zero m h s p q t = refl
window-set buffer size b (suc n) zero h s p q t = absurd (omega arith)
window-set buffer size b (suc n) (suc m) h s p q t =
    ap₂ ◌∷◌
      (get_or-set_ne buffer (place size h (suc m)) h b 0
        (place-ne size h (suc m) p (omega arith) t))
      (ap (λ i. window (set buffer i b) size n (next size h)) (back h m p (omega arith))
        ∙ window-set buffer size b n m (next size h) s (next-lt size h p) (omega arith)
            (omega arith))
  where
    back : (h m : ℕ) → h < size → m < size → place size h (suc m) ≡ place size (next size h) m
    back h m p q = ground arith

-- A write just behind a window makes it one byte longer.
pub window-push :
    (buffer : List ℕ) (size b n h : ℕ)
    → size < 2 ^ 16
    → size ≤ length buffer
    → h < size
    → n < size
    → window (set buffer (place size h n) b) size (suc n) h ≡ window buffer size n h ++ (b ∷ [])
window-push buffer size b n h s l p q =
    window-suc (set buffer (place size h n) b) size n h s p q
    ∙ ap₂ (λ xs x. xs ++ (x ∷ [])) (window-set buffer size b n n h s p (omega arith) q)
        (get_or-set_self buffer (place size h n) b 0 (ground arith))

-- What a ring holds, oldest first.
abbrev pub contents : Ring → List ℕ
contents r = window r.buffer r.size (data_length r) r.reader

pub length-contents : (r : Ring) → length (contents r) ≡ data_length r
length-contents r = length-window r.buffer r.size (data_length r) r.reader

-- The contents of a ring whose fields are known.
pub contents_of :
    (r : Ring) {buffer : List ℕ} {size n h : ℕ}
    → r.buffer ≡ buffer
    → r.size ≡ size
    → data_length r ≡ n
    → r.reader ≡ h
    → contents r ≡ window buffer size n h
contents_of r e0 e1 e2 e3 = λ i. window (e0 i) (e1 i) (e2 i) (e3 i)

-- Walking past some bytes of a window leaves the rest of it.
pub drop-window :
    (buffer : List ℕ) (size k n h : ℕ)
    → k ≤ n
    → drop k (window buffer size n h) ≡ window buffer size (n - k) (walk size k h)
unfolding walk
drop-window buffer size zero n h p = ap (λ m. window buffer size m h) (omega arith)
drop-window buffer size (suc k) zero h p = absurd (omega arith)
drop-window buffer size (suc k) (suc n) h p =
    drop-window buffer size k n (next size h) (omega arith)
    ∙ ap (λ m. window buffer size m (walk size k (next size h))) (omega arith)

pub take-window :
    (buffer : List ℕ) (size k n h : ℕ)
    → k ≤ n
    → take k (window buffer size n h) ≡ window buffer size k h
take-window buffer size zero n h p = refl
take-window buffer size (suc k) zero h p = absurd (omega arith)
take-window buffer size (suc k) (suc n) h p =
    ap (λ l. get_or buffer h 0 ∷ l) (take-window buffer size k n (next size h) (omega arith))

-- `k` steps of a walk, in one.
pub walk-place :
    (size k h : ℕ) → size < 2 ^ 16 → h < size → k < size → walk size k h ≡ place size h k
unfolding walk
walk-place size zero h s p q = ground arith
walk-place size (suc k) h s p q =
    walk-place size k (next size h) s (next-lt size h p) (omega arith)
    ∙ place-next size h k s p (omega arith)
