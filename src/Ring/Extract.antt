-- ===== src/Ring/Extract.antt =====
-- `RINGS_extractData`, by which the radio side reads a header without taking it out.
use okto_wsd.Base.{
  ℕ, zero, suc, ◌+◌, ◌-◌, ◌^◌, ◌≤◌, ◌<◌, ◌≡◌, refl, ap, ◌∙◌, sym, arith, List, take, drop,
}
use okto_wsd.Base.Int.{pos}
use okto_wsd.Ring.{Ring, data_length, extract_loop, extract_position, extract_data, walk}
use okto_wsd.Ring.Inv.{IsValid, place, data_length-lt}
use okto_wsd.Ring.Window.{window, contents, drop-window, take-window, walk-place}

-- `realPosition + wptr` goes round the buffer as every other position does.
extract_loop-window :
    (buffer : List ℕ) (size n real wptr : ℕ)
    → size < 2 ^ 16
    → real + wptr < size
    → (extract_loop buffer size n real wptr).0 ≡ window buffer size n (real + wptr)
unfolding extract_loop
extract_loop-window buffer size zero real wptr s p = refl
extract_loop-window buffer size (suc n) real wptr s p = ground (
  arith,
  extract_loop-window buffer size n 0 0 s (omega arith),
  extract_loop-window buffer size n real (wptr + 1) s,
  ap (window buffer size n) {x = real + (wptr + 1)} {y = real + wptr + 1} (omega arith),
)

-- The bytes at the index `k` of what a ring holds, asked for as `reader + k`.
pub extract_data_lem :
    (r : Ring) (k n : ℕ)
    → IsValid r
    → k + n ≤ data_length r
    → (extract_data (pos (r.reader + k)) n r).0 ≡ take n (drop k (contents r))
unfolding extract_data
extract_data_lem r k n v fits =
    let lt : k < r.size = omega (arith, data_length-lt r v) in
    extract_loop-window r.buffer r.size n (extract_position r.size (pos (r.reader + k))) 0 v.small
      (start_lt lt)
    ∙ ap (window r.buffer r.size n)
        (start lt ∙ sym (walk-place r.size k r.reader v.small v.reader_in lt))
    ∙ sym (
        ap (take n) (drop-window r.buffer r.size k (data_length r) r.reader (omega arith))
        ∙ take-window r.buffer r.size n (data_length r - k) (walk r.size k r.reader) (omega arith))
  where
    start_lt : k < r.size → extract_position r.size (pos (r.reader + k)) + 0 < r.size
    start_lt lt = unfold extract_position in ground arith

    start : k < r.size → extract_position r.size (pos (r.reader + k)) + 0 ≡ place r.size r.reader k
    start lt = unfold extract_position in ground arith
