-- ===== src/Ring/Inv.antt =====
-- The representation invariant of a ring, and that every operation of the receivers keeps it.
use okto_wsd.Base.{
  ℕ, zero, suc, ◌+◌, ◌-◌, ◌^◌, ◌≤◌, ◌<◌, ◌≡◌, ◌≢◌, arith, List, length, length-set, if◌then◌else◌,
  leb,
}
use okto_wsd.Base.Word.{u16}
use okto_wsd.Base.Int.{pos}
use okto_wsd.Ring.{
  Ring, create_ring_buffer, next, write, read, data_length, data_clear, walk, shifted, shift_reader,
}

pub record IsValid (r : Ring) : Type 0 where
  pub storage : r.size ≤ length r.buffer
  pub nonempty : 0 < r.size
  pub small : r.size < 2 ^ 16
  pub reader_in : r.reader < r.size
  pub writer_in : r.writer < r.size

pub next-lt : (size ptr : ℕ) → ptr < size → next size ptr < size
next-lt size ptr h = ground arith

pub create-IsValid :
    (storage : List ℕ) (size politics : ℕ)
    → size ≤ length storage
    → 0 < size
    → size < 2 ^ 16
    → IsValid (create_ring_buffer storage size politics)
unfolding create_ring_buffer
create-IsValid storage size politics h1 h2 h3 = omega arith

pub write-IsValid : (r : Ring) (b : ℕ) → IsValid r → IsValid (write b r)
unfolding write
write-IsValid r b v = ground (arith, length-set r.buffer r.writer b)

pub read-IsValid : (r : Ring) → IsValid r → IsValid (read r).1
unfolding read
read-IsValid r v = ground arith

pub data_clear-IsValid : (r : Ring) → IsValid r → IsValid (data_clear r)
unfolding data_clear
data_clear-IsValid r v = omega arith

pub walk-lt : (size n ptr : ℕ) → ptr < size → walk size n ptr < size
unfolding walk
walk-lt size zero ptr h = h
walk-lt size (suc n) ptr h = walk-lt size n (next size ptr) (next-lt size ptr h)

pub shift_reader-IsValid : (r : Ring) (n : ℕ) → IsValid r → IsValid (shift_reader (pos n) r)
unfolding shift_reader shifted
shift_reader-IsValid r n v = omega (arith, walk-lt r.size (u16 n) r.reader)

-- A valid ring holds fewer bytes than its size.
pub data_length-lt : (r : Ring) → IsValid r → data_length r < r.size
unfolding data_length
data_length-lt r v = ground arith

-- The position `k` bytes behind `h`.
abbrev pub place : ℕ → ℕ → ℕ → ℕ
place size h k = if leb size (h + k) then h + k - size else h + k

pub writer_place : (r : Ring) → IsValid r → r.writer ≡ place r.size r.reader (data_length r)
unfolding data_length
writer_place r v = ground arith

pub next-place :
    (size h k : ℕ)
    → size < 2 ^ 16
    → h < size
    → k < size
    → next size (place size h k) ≡ place size h (suc k)
next-place size h k s p q = ground arith

pub place-next :
    (size h k : ℕ)
    → size < 2 ^ 16
    → h < size
    → k < size
    → place size (next size h) k ≡ place size h (suc k)
place-next size h k s p q = ground arith

pub place-ne : (size h m : ℕ) → h < size → 0 < m → m < size → place size h m ≢ h
place-ne size h m p q s = ground arith
