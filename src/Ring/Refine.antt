-- ===== src/Ring/Refine.antt =====
-- A valid ring behaves as the queue of the bytes that it holds, at most `size - 1` of them.
use okto_wsd.Base.{
  ℕ, zero, suc, ◌-◌, ◌^◌, ◌≤◌, ◌<◌, ◌≡◌, refl, ap, ap₂, ◌∙◌, sym, arith, List, [], ◌∷◌, ◌++◌,
  length, get_or, set, drop, if◌then◌else◌, ◌==◌, eq_cases, inl, inr,
}
use okto_wsd.Base.Word.{u16}
use okto_wsd.Base.Int.{pos}
use okto_wsd.Ring.{
  Ring, next, rings_overflow_shift, read, write, data_length, read_all_loop, read_all, data_clear,
  walk, shifted, shift_reader,
}
use okto_wsd.Ring.Inv.{IsValid, place, next-lt, place-next, writer_place, data_length-lt, place-ne}
use okto_wsd.Ring.Window.{
  window, contents, contents_of, length-contents, window-push, drop-window, walk-place,
}

-- Appending to a queue of at most `cap` bytes: the oldest goes when there is no room.
abbrev pub push : ℕ → List ℕ → ℕ → List ℕ
push cap q b = if length q == cap then drop 1 (q ++ (b ∷ [])) else q ++ (b ∷ [])

-- `RINGS_write` in positions: what a write does to each field.
module _ (r : Ring) (b : ℕ) (v : IsValid r) where
  write_fields :
      ((write b r).buffer ≡ set r.buffer (place r.size r.reader (data_length r)) b)
      × ((write b r).size ≡ r.size)
      × ((write b r).overflow_politics ≡ r.overflow_politics)
  unfolding write data_length
  write_fields = ground arith

  write_room :
      suc (data_length r) < r.size
      → ((write b r).reader ≡ r.reader) × (data_length (write b r) ≡ suc (data_length r))
  unfolding write data_length
  write_room h = ground arith

  write_full :
      suc (data_length r) ≡ r.size
      → r.overflow_politics ≡ rings_overflow_shift
      → ((write b r).reader ≡ next r.size r.reader) × (data_length (write b r) ≡ data_length r)
  unfolding write data_length
  write_full h p = ground arith

  pushed :
      window
        (set r.buffer (place r.size r.reader (data_length r)) b)
        r.size
        (suc (data_length r))
        r.reader
      ≡ contents r ++ (b ∷ [])
  pushed =
      window-push r.buffer r.size b (data_length r) r.reader v.small v.storage v.reader_in
        (data_length-lt r v)

  -- With room for the byte it is appended, and the reader stays.
  pub contents-write_room :
      suc (data_length r) < r.size
      → (contents (write b r) ≡ contents r ++ (b ∷ [])) × ((write b r).reader ≡ r.reader)
  contents-write_room h =
      let (e, n) = write_room h in
      let (f, s, _) = write_fields in (contents_of (write b r) f s n e ∙ pushed, e)

  contents-write_full :
      suc (data_length r) ≡ r.size
      → r.overflow_politics ≡ rings_overflow_shift
      → contents (write b r) ≡ drop 1 (contents r ++ (b ∷ []))
  contents-write_full h p =
      let (e, n) = write_full h p in
      let (f, s, _) = write_fields in contents_of (write b r) f s n e ∙ ap (drop 1) pushed

-- What any ring operation leaves alone, for the operations of the receivers.
pub size-write : (r : Ring) (b : ℕ) → (write b r).size ≡ r.size
unfolding write
size-write r b = ground arith

pub politics-write : (r : Ring) (b : ℕ) → (write b r).overflow_politics ≡ r.overflow_politics
unfolding write
politics-write r b = ground arith

-- `RINGS_write` under the shifting policy is `push`.
pub write_refines :
    (r : Ring) (b : ℕ)
    → IsValid r
    → r.overflow_politics ≡ rings_overflow_shift
    → contents (write b r) ≡ push (r.size - 1) (contents r) b
write_refines r b v p = elim (eq_cases (suc (data_length r)) r.size) [
  | inl full ↦ ground (arith, contents-write_full r b v full p, length-contents r)
  | inr room ↦
      ground
        (arith, contents-write_room r b v (omega (arith, data_length-lt r v)), length-contents r)
]

read_fields :
    (r : Ring)
    → IsValid r
    → 0 < data_length r
    → ((read r).1.buffer ≡ r.buffer)
      × ((read r).1.size ≡ r.size)
      × (data_length r ≡ suc (data_length (read r).1))
      × ((read r).1.reader ≡ next r.size r.reader)
      × ((read r).0 ≡ get_or r.buffer r.reader 0)
unfolding read data_length
read_fields r v h = ground arith

-- `RINGS_read` of a ring that is not empty takes the oldest byte.
pub read_refines :
    (r : Ring) → IsValid r → 0 < data_length r → contents r ≡ (read r).0 ∷ contents (read r).1
read_refines r v h =
    let (f, s, n, e, b) = read_fields r v h in
    contents_of r refl refl n refl ∙ ap₂ ◌∷◌ (sym b) (sym (contents_of (read r).1 f s refl e))

-- `size` rounds empty the ring, and the loop ends by its own test.
read_all_loop-window :
    (fuel : ℕ) (buffer : List ℕ) (h w size n : ℕ)
    → n ≤ fuel
    → size < 2 ^ 16
    → h < size
    → n < size
    → w ≡ place size h n
    → read_all_loop fuel buffer h w size ≡ (window buffer size n h, w)
unfolding read_all_loop
read_all_loop-window zero buffer h w size zero q s p t e = ground arith
read_all_loop-window zero buffer h w size (suc n) q s p t e = absurd (omega arith)
read_all_loop-window (suc fuel) buffer h w size zero q s p t e = ground arith
read_all_loop-window (suc fuel) buffer h w size (suc n) q s p t e = ground (
  arith,
  read_all_loop-window fuel buffer (next size h) w size n (omega arith) s (next-lt size h p)
      (omega arith) (e ∙ sym (place-next size h n s p (omega arith))),
  place-ne size h (suc n) p (omega arith) t,
)

-- `RINGS_readAll` gives the bytes that the ring holds, oldest first, and leaves it empty.
pub read_all_lem :
    (r : Ring) → IsValid r → read_all r ≡ (contents r, record r { reader = r.writer })
unfolding read_all
read_all_lem r v = rw (
    read_all_loop-window r.size r.buffer r.reader r.writer r.size (data_length r)
      (omega (arith, data_length-lt r v)) v.small v.reader_in (data_length-lt r v)
      (writer_place r v))

-- A ring whose reader is its writer holds nothing.
pub contents-data_clear : (r : Ring) → contents (data_clear r) ≡ []
unfolding data_clear data_length
contents-data_clear r = ground arith

shift_fields :
    (r : Ring) (k : ℕ)
    → IsValid r
    → k ≤ data_length r
    → data_length (shift_reader (pos k) r) ≡ data_length r - k
unfolding shift_reader shifted data_length
shift_fields r k v h = ground (arith, walk-place r.size k r.reader)

-- `RINGS_shiftReader` by no more than what is there drops the oldest bytes.
pub shift_reader_refines :
    (r : Ring) (k : ℕ)
    → IsValid r
    → k ≤ data_length r
    → contents (shift_reader (pos k) r) ≡ drop k (contents r)
unfolding shift_reader shifted
shift_reader_refines r k v h =
    contents_of (shift_reader (pos k) r) refl refl (shift_fields r k v h)
      (ap (λ j. walk r.size j r.reader) {x = u16 k} {y = k} (omega (arith, data_length-lt r v)))
    ∙ sym (drop-window r.buffer r.size k (data_length r) r.reader h)
