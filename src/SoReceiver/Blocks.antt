-- ===== src/SoReceiver/Blocks.antt =====
-- Whether the bytes of a body fit the block that was allocated for it.
use okto_wsd.Base.{
  ℕ, ◌+◌, ◌<◌, ◌≤◌, ◌≡◌, ◌⊎◌, arith, refl, List, [], ◌∷◌, Option, none, some, length,
}
use okto_wsd.Ring.{Ring, write, data_length}
use okto_wsd.Ring.Inv.{IsValid}
use okto_wsd.Ring.Window.{length-contents}
use okto_wsd.Ring.Refine.{read_all_lem}
use okto_wsd.SoReceiver.{
  GateInQueueElement, Mode, mode_preamble, mode_header, mode_body, Receiver, in_preamble, in_header,
  in_body, dispatch, on_byte, receive, enqueue,
}
use okto_wsd.SoReceiver.Sound.{IsSound, write-IsSound}
use okto_wsd.SoReceiver.Any.{dispatch-IsSound}

pub data_length-write : (r : Ring) (b : ℕ) → IsValid r → data_length (write b r) ≤ data_length r + 1
unfolding write data_length
data_length-write r b v = ground arith

-- While a body is awaited, fewer bytes are held than it has, or none yet.
abbrev pub IsInTime : Receiver → Type 0
IsInTime s = s.mode ≡ mode_body → (data_length s.in_buf < s.sbody) ⊎ (data_length s.in_buf ≡ 0)

-- The body is within its block, or it was announced as empty.
abbrev pub IsWithin : GateInQueueElement → Type 0
IsWithin e = (length e.data' ≤ e.size) ⊎ (e.size ≡ 0)

abbrev pub AllWithin : List GateInQueueElement → Type 0
AllWithin [] = Unit
AllWithin (e ∷ es) = IsWithin e × AllWithin es

emptied : (r : Ring) → IsValid r → data_length (record r { reader = r.writer }) ≡ 0
unfolding data_length
emptied r v = ground arith

module _ (socket : ℕ) where
  dispatch-IsInTime :
      (m : Mode) (s : Receiver) (held : ℕ)
      → s.mode ≡ m
      → IsSound s.in_buf
      → (m ≡ mode_body → (held < s.sbody) ⊎ (held ≡ 0))
      → data_length s.in_buf ≤ held + 1
      → IsInTime (dispatch socket m s (data_length s.in_buf)).1
        × ((e : GateInQueueElement)
            → (dispatch socket m s (data_length s.in_buf)).0 ≡ some e
            → IsWithin e)
  unfolding dispatch in_preamble in_header in_body
  dispatch-IsInTime mode_preamble s held at v awaited more =
      (λ is_body. ground arith, λ e h. ground arith)
  dispatch-IsInTime mode_header s held at v awaited more = (
    λ is_body. ground (arith, read_all_lem s.in_buf v.valid, emptied s.in_buf v.valid),
    λ e h. ground arith,
  )
  dispatch-IsInTime mode_body s held at v awaited more =
      let read = read_all_lem s.in_buf v.valid in
      let count = length-contents s.in_buf in
      let before = awaited refl in
      (λ is_body. ground (arith, read, count, before), λ e h. ground (arith, read, count, before))

  on_byte_lem :
      (ch : ℕ) (s : Receiver)
      → IsSound s.in_buf
      → IsInTime s
      → IsInTime (on_byte socket ch s).1
        × ((e : GateInQueueElement) → (on_byte socket ch s).0 ≡ some e → IsWithin e)
  unfolding on_byte
  on_byte_lem ch s v time =
      dispatch-IsInTime s.mode (record s { in_buf = write ch s.in_buf }) (data_length s.in_buf) refl
        (write-IsSound ch v) time (data_length-write s.in_buf ch v.valid)

  on_byte-IsSound :
      (ch : ℕ) (s : Receiver) → IsSound s.in_buf → IsSound (on_byte socket ch s).1.in_buf
  unfolding on_byte
  on_byte-IsSound ch s v =
      (dispatch-IsSound socket s.mode (record s { in_buf = write ch s.in_buf })
        (write-IsSound ch v)).0

  enqueue-AllWithin :
      (o : Option GateInQueueElement) (rest : List GateInQueueElement × Receiver)
      → ((e : GateInQueueElement) → o ≡ some e → IsWithin e)
      → AllWithin rest.0
      → IsInTime rest.1
      → AllWithin (enqueue o rest).0 × IsInTime (enqueue o rest).1
  enqueue-AllWithin none rest one all time = (all, time)
  enqueue-AllWithin (some e) rest one all time = ((one e refl, all), time)

  -- On any bytes a body is written behind its block only if it was announced as empty.
  pub receive-AllWithin :
      (chs : List ℕ) (s : Receiver)
      → IsSound s.in_buf
      → IsInTime s
      → AllWithin (receive socket chs s).0 × IsInTime (receive socket chs s).1
  unfolding receive
  receive-AllWithin [] s v time = (tt, time)
  receive-AllWithin (ch ∷ chs) s v time =
      let (kept, one) = on_byte_lem ch s v time in
      let (all, time') =
        receive-AllWithin chs (on_byte socket ch s).1 (on_byte-IsSound ch s v) kept in
      enqueue-AllWithin (on_byte socket ch s).0 (receive socket chs (on_byte socket ch s).1) one all
        time'
