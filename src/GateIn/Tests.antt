-- ===== src/GateIn/Tests.antt =====
-- Requests at a chip that keeps its registers, and at one that does not answer.
use okto_wsd.Base.{ℕ, ◌≡◌, inr, refl, arith, [], ◌∷◌, ◌++◌, true, false, some, take, drop}
use okto_wsd.Elements.{GateInQueueElement}
use okto_wsd.Itoa.{decimal}
use okto_wsd.Nrf24.{Device, initial_pipes, read_buf, write_buf}
use okto_wsd.GateIn.{
  GateIn, on_element, store_tid, complete_empty_result, chip_differs, read_pipes, write_pipes,
}
use okto_wsd.GateIn.Distinct.{matrix}
use okto_wsd.GateIn.Keeping.{keeping, keeping-Registers, blob, blob-IsDistinct, all_small-IsBytes}
use okto_wsd.GateIn.Matrix.{error_element, matrix_refused, matrix_accepted, matrix_unanswered}
use okto_wsd.GateIn.Transmit.{transmit_lem}

-- A bus with nothing on it.
abbrev silent : Device
silent = record {
  Chip = ℕ;
  transfer = λ bytes c. ([], c);
  set_ce = λ on c. c;
  read_irq_pin = λ c. (0, c);
  junk = λ n. 0 ∷ [];
}

abbrev request : GateInQueueElement
request = record { socket = 4; tid = 77; action = 3; size = 40; data' = blob }

abbrev idle : {Chip : Type 0} → Chip → GateIn Chip
idle c = record { tid_so_map = []; pipes = initial_pipes; rf_queue = []; so_queue = []; chip = c }

-- a matrix in which the first address is given twice
abbrev twice : GateInQueueElement
twice = record request { data' = take 8 blob ++ take 8 blob ++ drop 16 blob }

matrix_refused_example :
    on_element silent decimal false twice (idle 0)
    ≡ some (
      record (store_tid decimal twice (idle 0)) { so_queue = error_element false 1003 77 ∷ [] },
      false,
    )
matrix_refused_example =
    matrix_refused silent decimal false twice (idle 0) 1003 refl
      (all_small-IsBytes twice.data' refl)
      (inr (omega arith, 0, 1, omega arith, omega arith, omega arith, refl, refl))

matrix_accepted_example :
    on_element keeping decimal false request (idle (λ k. []))
    ≡ some (
      record (store_tid decimal request (idle (λ k. []))) {
        pipes = matrix blob;
        chip = (read_pipes keeping (write_pipes keeping (matrix blob) (λ k. []))).1;
        so_queue = complete_empty_result false (0 ∷ []) 77 ∷ [];
      },
      true,
    )
matrix_accepted_example =
    matrix_accepted keeping decimal false request (idle (λ k. [])) keeping-Registers refl
      (all_small-IsBytes blob refl) (omega arith) blob-IsDistinct

silent_differs :
    (chip_differs silent (matrix blob) (read_pipes silent (write_pipes silent (matrix blob) 0)).0)
    ≡ true
unfolding chip_differs read_pipes write_pipes write_buf read_buf
silent_differs = refl

matrix_unanswered_example :
    on_element silent decimal false request (idle 0)
    ≡ some (
      record (store_tid decimal request (idle 0)) {
        pipes = matrix blob;
        chip = (read_pipes silent (write_pipes silent (matrix blob) 0)).1;
        so_queue = error_element false 1004 77 ∷ [];
      },
      false,
    )
matrix_unanswered_example =
    matrix_unanswered silent decimal false request (idle 0) refl (all_small-IsBytes blob refl)
      (omega arith) blob-IsDistinct silent_differs

abbrev outgoing : GateInQueueElement
outgoing = record {
  socket = 4;
  tid = 5;
  action = 0;
  size = 20;
  data' =
      0xff ∷ 0xff ∷ 0xff ∷ 0xff ∷ 0x3f ∷ 0xbb ∷ 0xbb ∷ 0xbb ∷ 0xbb ∷ 0xbb ∷ 0xbb ∷ 0xbb ∷ 0 ∷ 0 ∷ 1
      ∷ 2 ∷ 6 ∷ 0 ∷ 1 ∷ 9 ∷ [];
}

transmit_lem_example :
    on_element silent decimal false outgoing (idle 0)
    ≡ some (
      record (store_tid decimal outgoing (idle 0)) {
        rf_queue =
            record { addr = 0xffffffff; tid = 258; size = 16; data' = drop 4 outgoing.data' } ∷ [];
      },
      true,
    )
transmit_lem_example =
    transmit_lem silent decimal false outgoing (idle 0) refl refl (omega arith) (omega arith)
      (all_small-IsBytes outgoing.data' refl)
