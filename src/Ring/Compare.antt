-- ===== src/Ring/Compare.antt =====
-- `RINGS_cmpData`, by which the receivers look for a preamble at the end of what they hold.
use okto_wsd.Base.{
  ℕ, zero, suc, ◌+◌, ◌-◌, ◌^◌, ◌≤◌, ◌<◌, ◌≡◌, refl, ap, ◌∙◌, sym, arith, List, [], ◌∷◌, length,
  get_or, take, drop, if◌then◌else◌, ◌==◌, Bool, true, false,
}
use okto_wsd.Ring.{Ring, next, data_length, cmp_loop, cmp_data, walk}
use okto_wsd.Ring.Inv.{IsValid, place, data_length-lt}
use okto_wsd.Ring.Window.{window, contents, drop-window, take-window, walk-place}

-- Equality of byte strings, as a test.
abbrev pub bytes_eq : List ℕ → List ℕ → Bool
bytes_eq [] [] = true
bytes_eq [] (y ∷ ys) = false
bytes_eq (x ∷ xs) [] = false
bytes_eq (x ∷ xs) (y ∷ ys) = if x == y then bytes_eq xs ys else false

pub bytes_eq_refl : (xs : List ℕ) → bytes_eq xs xs ≡ true
bytes_eq_refl [] = refl
bytes_eq_refl (x ∷ xs) = ground (arith, bytes_eq_refl xs)

pub eq_of_bytes_eq : (xs ys : List ℕ) → bytes_eq xs ys ≡ true → xs ≡ ys
eq_of_bytes_eq [] [] h = refl
eq_of_bytes_eq [] (y ∷ ys) h = cc
eq_of_bytes_eq (x ∷ xs) [] h = cc
eq_of_bytes_eq (x ∷ xs) (y ∷ ys) h = ground (arith, eq_of_bytes_eq xs ys)

drop-cons : (d : List ℕ) (c : ℕ) → c < length d → drop c d ≡ get_or d c 0 ∷ drop (suc c) d
drop-cons [] c h = absurd (omega arith)
drop-cons (x ∷ d) zero h = refl
drop-cons (x ∷ d) (suc c) h = drop-cons d c (omega arith)

drop_end : (d : List ℕ) → drop (length d) d ≡ []
drop_end [] = refl
drop_end (x ∷ d) = drop_end d

cmp_loop-window :
    (buffer : List ℕ) (size : ℕ) (d : List ℕ) (n ptr c : ℕ)
    → c + n ≡ length d
    → cmp_loop buffer size d n ptr c ≡ bytes_eq (window buffer size n ptr) (drop c d)
unfolding cmp_loop
cmp_loop-window buffer size d zero ptr c h =
    ap (bytes_eq []) (sym (drop_end d) ∙ ap (λ k. drop k d) (omega arith))
cmp_loop-window buffer size d (suc n) ptr c h = ground (
  arith,
  cmp_loop-window buffer size d n (next size ptr) (c + 1) (omega arith),
  drop-cons d c (omega arith),
)

module _ (r : Ring) (offset : ℕ) (d : List ℕ) (v : IsValid r) where
  -- A comparison that starts at the place of some index of the contents.
  cmp_at :
      (k ptr : ℕ)
      → k + length d ≤ data_length r
      → ptr ≡ place r.size r.reader k
      → cmp_loop r.buffer r.size d (length d) ptr 0
        ≡ bytes_eq (take (length d) (drop k (contents r))) d
  cmp_at k ptr fits e =
      cmp_loop-window r.buffer r.size d (length d) ptr 0 (omega arith)
      ∙ ap (λ l. bytes_eq l d) (sym slice)
    where
      slice : take (length d) (drop k (contents r)) ≡ window r.buffer r.size (length d) ptr
      slice =
          ap (take (length d))
            (drop-window r.buffer r.size k (data_length r) r.reader (omega arith))
          ∙ take-window r.buffer r.size (length d) (data_length r - k) (walk r.size k r.reader)
              (omega arith)
          ∙ ap (window r.buffer r.size (length d)) (
              walk-place r.size k r.reader v.small v.reader_in (omega (arith, data_length-lt r v))
              ∙ sym e)

  -- Where the start of the comparison fits a `uint16_t`, the result is 0 exactly when the bytes at
  -- that offset are the data, and 255 otherwise.
  pub cmp_data_lem :
      offset + length d ≤ data_length r
      → r.reader + offset < 2 ^ 16
      → cmp_data offset d (length d) r
        ≡ (if bytes_eq (take (length d) (drop offset (contents r))) d then 0 else 255)
  unfolding cmp_data
  cmp_data_lem fits small = ground (arith, cmp_at offset (place r.size r.reader offset) fits)

  -- Where it does not fit, the sum of reader and offset wraps at 2 ^ 16 before it is reduced by
  -- the size, and the bytes compared stand `2 ^ 16 - size` before the ones asked for.
  pub cmp_data_wrapped :
      offset + length d ≤ data_length r
      → 2 ^ 16 ≤ r.reader + offset
      → cmp_data offset d (length d) r ≡ (
          if bytes_eq (take (length d) (drop (offset - (2 ^ 16 - r.size)) (contents r))) d
          then 0
          else 255)
  unfolding cmp_data
  cmp_data_wrapped fits big = ground (
    arith,
    data_length-lt r v,
    cmp_at (offset - (2 ^ 16 - r.size)) (place r.size r.reader (offset - (2 ^ 16 - r.size)))
        (omega arith),
  )
