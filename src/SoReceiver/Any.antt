-- ===== src/SoReceiver/Any.antt =====
-- The receiving thread on any bytes at all.
use okto_wsd.Base.{ℕ, ◌≤◌, arith, List, [], ◌∷◌, Option, none, some, length}
use okto_wsd.Ring.{write, data_length}
use okto_wsd.Ring.Window.{length-contents}
use okto_wsd.Ring.Refine.{read_all_lem}
use okto_wsd.SoReceiver.{
  GateInQueueElement, Mode, mode_preamble, mode_header, mode_body, Receiver, in_preamble, in_header,
  in_body, dispatch, on_byte, receive, enqueue,
}
use okto_wsd.SoReceiver.Sound.{IsSound, write-IsSound, data_clear-IsSound}

-- The block of each element has the bytes that the element announces.
abbrev pub AllWhole : List GateInQueueElement → Type 0
AllWhole [] = Unit
AllWhole (e ∷ es) = (e.size ≤ length e.data') × AllWhole es

abbrev WholeIf : Option GateInQueueElement → Type 0
WholeIf none = Unit
WholeIf (some e) = e.size ≤ length e.data'

module _ (socket : ℕ) where
  in_preamble-IsSound : (s : Receiver) (n : ℕ) → IsSound s.in_buf → IsSound (in_preamble s n).in_buf
  unfolding in_preamble
  in_preamble-IsSound s n v = ground (arith, data_clear-IsSound v)

  in_header-IsSound : (s : Receiver) (n : ℕ) → IsSound s.in_buf → IsSound (in_header s n).in_buf
  unfolding in_header
  in_header-IsSound s n v = ground (arith, read_all_lem s.in_buf v.valid)

  in_body-IsSound :
      (s : Receiver)
      → IsSound s.in_buf
      → IsSound (in_body socket s (data_length s.in_buf)).1.in_buf
        × WholeIf (in_body socket s (data_length s.in_buf)).0
  unfolding in_body
  in_body-IsSound s v = ground (arith, read_all_lem s.in_buf v.valid, length-contents s.in_buf)

  pub dispatch-IsSound :
      (m : Mode) (s : Receiver)
      → IsSound s.in_buf
      → IsSound (dispatch socket m s (data_length s.in_buf)).1.in_buf
        × WholeIf (dispatch socket m s (data_length s.in_buf)).0
  unfolding dispatch
  dispatch-IsSound mode_preamble s v = (in_preamble-IsSound s (data_length s.in_buf) v, tt)
  dispatch-IsSound mode_header s v = (in_header-IsSound s (data_length s.in_buf) v, tt)
  dispatch-IsSound mode_body s v = in_body-IsSound s v

  enqueue-AllWhole :
      (o : Option GateInQueueElement) (rest : List GateInQueueElement × Receiver)
      → WholeIf o
      → AllWhole rest.0
      → IsSound rest.1.in_buf
      → AllWhole (enqueue o rest).0 × IsSound (enqueue o rest).1.in_buf
  enqueue-AllWhole none rest h k v = (k, v)
  enqueue-AllWhole (some e) rest h k v = ((h, k), v)

  -- On any bytes in any mode the ring stays sound, and what is framed is whole.
  pub receive-IsSound :
      (chs : List ℕ) (s : Receiver)
      → IsSound s.in_buf
      → AllWhole (receive socket chs s).0 × IsSound (receive socket chs s).1.in_buf
  unfolding receive on_byte
  receive-IsSound [] s v = (tt, v)
  receive-IsSound (ch ∷ chs) s v =
      let (kept, whole) =
        dispatch-IsSound s.mode (record s { in_buf = write ch s.in_buf }) (write-IsSound ch v) in
      let (rest, kept') = receive-IsSound chs (on_byte socket ch s).1 kept in
      enqueue-AllWhole (on_byte socket ch s).0 (receive socket chs (on_byte socket ch s).1) whole
        rest kept'
