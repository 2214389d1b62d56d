-- ===== src/Ring/Faults.antt =====
-- Where rings.c leaves the queue that it stands for.
use okto_wsd.Base.{ℕ, ◌+◌, ◌-◌, ◌≡◌, arith, false, ◌==◌, if◌then◌else◌}
use okto_wsd.Ring.{Ring, read, write, data_length, rings_overflow_shift}
use okto_wsd.Ring.Inv.{IsValid}

-- `RINGS_read` of an empty ring whose reader stands at the last position makes the ring full of
-- stale bytes; at any other position the ring stays empty.
read_empty :
    (r : Ring)
    → IsValid r
    → data_length r ≡ 0
    → data_length (read r).1 ≡ (if r.reader + 1 == r.size then r.size - 1 else 0)
unfolding read data_length
read_empty r v e = ground arith

-- Under any policy but RINGS_OVERFLOW_SHIFT a write to a full ring makes it empty.
pub write_full_other :
    (r : Ring) (b : ℕ)
    → IsValid r
    → (r.overflow_politics == rings_overflow_shift) ≡ false
    → data_length r + 1 ≡ r.size
    → data_length (write b r) ≡ 0
unfolding write data_length
write_full_other r b v p e = ground arith
