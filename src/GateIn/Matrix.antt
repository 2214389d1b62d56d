-- ===== src/GateIn/Matrix.antt =====
-- What comes of a request to set the matrix of addresses.
use okto_wsd.Base.{
  ℕ, ◌%◌, ◌/◌, ◌^◌, ◌<◌, ◌≤◌, ◌≡◌, ◌≢◌, ◌⊎◌, inl, inr, refl, arith, [], ◌∷◌, ◌++◌, Bool, true,
  false, some, ltb,
}
use okto_wsd.Elements.{GateInQueueElement, SoTransmitterQueueElem}
use okto_wsd.Itoa.{Sprintf}
use okto_wsd.Nrf24.{Device}
use okto_wsd.Packet.Wsd.{wsd_type_set_pipes_matrix, wsd_type_error}
use okto_wsd.GateIn.{
  GateIn, on_element, on_matrix, store_tid, write_pipes, read_pipes, chip_differs, complete_error,
  complete_empty_result,
}
use okto_wsd.GateIn.Blob.{IsBytes, be_at-lt, error_bytes}
use okto_wsd.GateIn.Registers.{Registers, chip_differs-written}
use okto_wsd.GateIn.Distinct.{
  matrix, target_byte, IsDistinct, pipes_of_lem, ident_outer-distinct, ident_outer-repeated,
}

-- why a matrix is refused, with the number of the error
abbrev pub IsRefused : GateInQueueElement → ℕ → Type 0
IsRefused e error =
    ((e.size < 40) × (error ≡ 1002))
    ⊎ ((40 ≤ e.size)
        × (i j : ℕ) × (i < 5)
        × (j < 5)
        × (j ≢ i)
        × (target_byte e.data' i ≡ target_byte e.data' j)
        × (error ≡ 1003))

-- an error on the wire: its number as four bytes, the most significant one first
abbrev pub error_element : Bool → ℕ → ℕ → SoTransmitterQueueElem
error_element uniall error tid = record {
  tid = tid;
  type = wsd_type_error;
  uniall = uniall;
  size = 4;
  data' = 0 ∷ 0 ∷ error / 256 ∷ error % 256 ∷ [];
}

pub complete_error_lem :
    (uniall : Bool) (error tid : ℕ)
    → error < 2 ^ 16
    → complete_error uniall error tid ≡ error_element uniall error tid
unfolding complete_error
complete_error_lem uniall error tid h = rw (error_bytes error h) refl

ltb_40 : (n : ℕ) → 40 ≤ n → ltb n 40 ≡ false
ltb_40 n h = ground arith

-- `store_tid` changes the map alone.
store_tid-frame :
    {Chip : Type 0} (c : Sprintf) (e : GateInQueueElement) (s : GateIn Chip)
    → ((store_tid c e s).chip ≡ s.chip) × ((store_tid c e s).so_queue ≡ s.so_queue)
unfolding store_tid
store_tid-frame c e s = (ground arith, ground arith)

module _ (d : Device) (c : Sprintf) (uniall : Bool) (e : GateInQueueElement)
    (s : GateIn d.Chip) where
  -- A matrix of less than 40 bytes is answered with error 1002, and any other in which two of the
  -- target addresses end in the same byte with error 1003. The answer carries the id of the
  -- request; the addresses and the chip stay as they are, and the request is not freed.
  pub matrix_refused :
      (error : ℕ)
      → e.action ≡ wsd_type_set_pipes_matrix
      → IsBytes e.data'
      → IsRefused e error
      → on_element d c uniall e s
        ≡ some (
          record (store_tid c e s) {
            so_queue = s.so_queue ++ (error_element uniall error e.tid ∷ []);
          },
          false,
        )
  unfolding on_element on_matrix
  matrix_refused error act bytes (inl (short, is)) =
      rw (act, is, complete_error_lem uniall 1002 e.tid (omega arith))
        (unfold store_tid in ground arith)
  matrix_refused error act bytes (inr (long, i, j, p, q, ne, same, is)) =
      rw
        (
          act,
          is,
          complete_error_lem uniall 1003 e.tid (omega arith),
          ident_outer-repeated e.data' bytes i j p q ne same,
        )
        (unfold store_tid in ground arith)

  -- A matrix of 40 bytes or more whose target addresses end in different bytes is taken by a chip
  -- whose registers work: its ten big-endian numbers become the addresses, the answer is a
  -- result with the id of the request, and the request is freed.
  pub matrix_accepted :
      Registers d
      → e.action ≡ wsd_type_set_pipes_matrix
      → IsBytes e.data'
      → 40 ≤ e.size
      → IsDistinct e.data'
      → on_element d c uniall e s
        ≡ some (
          record (store_tid c e s) {
            pipes = matrix e.data';
            chip = (read_pipes d (write_pipes d (matrix e.data') s.chip)).1;
            so_queue = s.so_queue ++ (complete_empty_result uniall (d.junk 1) e.tid ∷ []);
          },
          true,
        )
  unfolding on_element on_matrix
  matrix_accepted law act bytes long distinct =
      rw
        (
          act,
          ident_outer-distinct e.data' bytes distinct,
          pipes_of_lem e.data' bytes,
          (store_tid-frame c e s).0,
          (store_tid-frame c e s).1,
          ltb_40 e.size long,
          chip_differs-written d law (matrix e.data') s.chip (be_at-lt e.data' 0 bytes),
        )
        refl

  -- A chip that reads back other addresses is answered with error 1004; the addresses of a good
  -- matrix are in force all the same, and the request is not freed.
  pub matrix_unanswered :
      e.action ≡ wsd_type_set_pipes_matrix
      → IsBytes e.data'
      → 40 ≤ e.size
      → IsDistinct e.data'
      → chip_differs d (matrix e.data') (read_pipes d (write_pipes d (matrix e.data') s.chip)).0
        ≡ true
      → on_element d c uniall e s
        ≡ some (
          record (store_tid c e s) {
            pipes = matrix e.data';
            chip = (read_pipes d (write_pipes d (matrix e.data') s.chip)).1;
            so_queue = s.so_queue ++ (error_element uniall 1004 e.tid ∷ []);
          },
          false,
        )
  unfolding on_element on_matrix
  matrix_unanswered act bytes long distinct differs =
      rw
        (
          act,
          ident_outer-distinct e.data' bytes distinct,
          pipes_of_lem e.data' bytes,
          complete_error_lem uniall 1004 e.tid (omega arith),
          (store_tid-frame c e s).0,
          (store_tid-frame c e s).1,
          differs,
          ltb_40 e.size long,
        )
        refl
