-- ===== src/GateOut/Any.antt =====
-- The assembler on any payloads at all.
use okto_wsd.Base.{ℕ, ◌-◌, arith, List, [], ◌∷◌, Bool, Option, none, some}
use okto_wsd.Base.Int.{pos}
use okto_wsd.Elements.{SoTransmitterQueueElem}
use okto_wsd.Ring.{Ring, write, data_length, data_clear, shift_reader}
use okto_wsd.Ring.Inv.{shift_reader-IsValid}
use okto_wsd.Ring.Refine.{read_all_lem}
use okto_wsd.GateOut.{
  Mode, mode_preamble, mode_header, mode_body, Assembler, in_preamble, in_header, in_body, dispatch,
  on_byte, on_bytes, enqueue,
}
use okto_wsd.GateOut.Limits.{IsSound, write-IsSound}

shift_reader-IsSound : (n : ℕ) {r : Ring} → IsSound r → IsSound (shift_reader (pos n) r)
unfolding shift_reader
shift_reader-IsSound n {r} v = record {
  valid = shift_reader-IsValid r n v.valid;
  size = v.size;
  shifting = v.shifting;
}

module _ (uniall : Bool) (addr : ℕ) where
  in_preamble-IsSound :
      (s : Assembler) (n : ℕ) → IsSound s.in_buf → IsSound (in_preamble s n).in_buf
  unfolding in_preamble
  in_preamble-IsSound s n v = ground (arith, shift_reader-IsSound (n - 8) v)

  in_header-IsSound : (s : Assembler) (n : ℕ) → IsSound s.in_buf → IsSound (in_header s n).in_buf
  unfolding in_header
  in_header-IsSound s n v = ground arith

  in_body-IsSound :
      (s : Assembler) (n : ℕ) → IsSound s.in_buf → IsSound (in_body uniall addr s n).1.in_buf
  unfolding in_body data_clear
  in_body-IsSound s n v = ground (arith, read_all_lem s.in_buf v.valid)

  pub dispatch-IsSound :
      (m : Mode) (s : Assembler) (n : ℕ)
      → IsSound s.in_buf
      → IsSound (dispatch uniall addr m s n).1.in_buf
  unfolding dispatch
  dispatch-IsSound mode_preamble s n v = in_preamble-IsSound s n v
  dispatch-IsSound mode_header s n v = in_header-IsSound s n v
  dispatch-IsSound mode_body s n v = in_body-IsSound s n v

  enqueue-IsSound :
      (o : Option SoTransmitterQueueElem) (rest : List SoTransmitterQueueElem × Assembler)
      → IsSound rest.1.in_buf
      → IsSound (enqueue o rest).1.in_buf
  enqueue-IsSound none rest v = v
  enqueue-IsSound (some e) rest v = v

  pub on_bytes-IsSound :
      (chs : List ℕ) (s : Assembler)
      → IsSound s.in_buf
      → IsSound (on_bytes uniall addr chs s).1.in_buf
  unfolding on_bytes on_byte
  on_bytes-IsSound [] s v = v
  on_bytes-IsSound (ch ∷ chs) s v =
      let (out, s') = on_byte uniall addr ch s in
      enqueue-IsSound out (on_bytes uniall addr chs s') (
        on_bytes-IsSound chs s' (
          dispatch-IsSound s.mode (record s { in_buf = write ch s.in_buf })
            (data_length (write ch s.in_buf)) (write-IsSound ch v)))
