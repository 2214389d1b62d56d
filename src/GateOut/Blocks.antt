-- ===== src/GateOut/Blocks.antt =====
-- Whether a packet fits the block that was allocated for it.
use okto_wsd.Base.{
  ℕ, ◌+◌, ◌-◌, ◌<◌, ◌≤◌, ◌≡◌, ◌⊎◌, arith, refl, ap, List, [], ◌∷◌, Bool, Option, none, some, length,
  length-append, length-drop,
}
use okto_wsd.Base.Int.{pos}
use okto_wsd.Elements.{SoTransmitterQueueElem}
use okto_wsd.Ring.{Ring, write, data_length, shift_reader}
use okto_wsd.Ring.Inv.{data_length-lt}
use okto_wsd.Ring.Window.{contents, length-contents}
use okto_wsd.Ring.Refine.{read_all_lem, shift_reader_refines}
use okto_wsd.GateOut.{
  Mode, mode_preamble, mode_header, mode_body, Assembler, in_preamble, in_header, in_body, dispatch,
  on_byte, on_bytes, enqueue, element_of, addr_bytes,
}
use okto_wsd.GateOut.Limits.{IsSound, write-IsSound}
use okto_wsd.GateOut.Any.{dispatch-IsSound}
use okto_wsd.SoReceiver.Blocks.{data_length-write}

-- While a header is awaited, no more is held than it needs; while a body is awaited, less than the
-- packet has, or just the header.
abbrev pub IsInTime : Assembler → Type 0
IsInTime s =
    (s.mode ≡ mode_header → data_length s.in_buf < 15)
    × (s.mode ≡ mode_body → (data_length s.in_buf < s.sbody + 15) ⊎ (data_length s.in_buf ≡ 15))

-- The packet is within its block, or its body was announced as empty.
abbrev pub IsWithin : SoTransmitterQueueElem → Type 0
IsWithin e = (length e.data' ≤ e.size) ⊎ (e.size ≡ 19)

abbrev pub AllWithin : List SoTransmitterQueueElem → Type 0
AllWithin [] = Unit
AllWithin (e ∷ es) = IsWithin e × AllWithin es

-- What is left when the reader is shifted to 8 bytes before the end.
shifted_length :
    (r : Ring)
    → IsSound r
    → 8 ≤ data_length r
    → data_length (shift_reader (pos (data_length r - 8)) r) ≡ 8
shifted_length r v enough =
    let k = data_length r - 8 in
    omega (
      arith,
      length-contents (shift_reader (pos k) r),
      ap length (shift_reader_refines r k v.valid (omega arith)),
      length-drop k (contents r),
      length-contents r,
    )

module _ (uniall : Bool) (addr : ℕ) where
  element-IsWithin :
      (s : Assembler) (held : ℕ)
      → IsSound s.in_buf
      → (held < s.sbody + 15) ⊎ (held ≡ 15)
      → data_length s.in_buf ≤ held + 1
      → s.sbody + 15 ≤ data_length s.in_buf
      → IsWithin (element_of uniall addr s.packet s.sbody (contents s.in_buf))
  unfolding element_of
  element-IsWithin s held v before more whole =
      let count = length-append (addr_bytes addr) (contents s.in_buf) in
      ground (arith, count, length-contents s.in_buf, data_length-lt s.in_buf v.valid, v.size)

  dispatch-IsInTime :
      (m : Mode) (s : Assembler) (held : ℕ)
      → s.mode ≡ m
      → IsSound s.in_buf
      → (m ≡ mode_header → held < 15)
      → (m ≡ mode_body → (held < s.sbody + 15) ⊎ (held ≡ 15))
      → data_length s.in_buf ≤ held + 1
      → IsInTime (dispatch uniall addr m s (data_length s.in_buf)).1
        × ((e : SoTransmitterQueueElem)
            → (dispatch uniall addr m s (data_length s.in_buf)).0 ≡ some e
            → IsWithin e)
  unfolding dispatch in_preamble in_header in_body
  dispatch-IsInTime mode_preamble s held at v in_head in_bod more = (
    (λ is_header. ground (arith, shifted_length s.in_buf v), λ is_body. ground arith),
    λ e h. ground arith,
  )
  dispatch-IsInTime mode_header s held at v in_head in_bod more =
      let few = in_head refl in
      ((λ is_header. ground (arith, few), λ is_body. ground (arith, few)), λ e h. ground arith)
  dispatch-IsInTime mode_body s held at v in_head in_bod more =
      let read = read_all_lem s.in_buf v.valid in
      let before = in_bod refl in
      (
        (λ is_header. ground (arith, read), λ is_body. ground (arith, read)),
        λ e h. ground (arith, read, element-IsWithin s held v before more),
      )

  on_byte_lem :
      (ch : ℕ) (s : Assembler)
      → IsSound s.in_buf
      → IsInTime s
      → IsInTime (on_byte uniall addr ch s).1
        × ((e : SoTransmitterQueueElem) → (on_byte uniall addr ch s).0 ≡ some e → IsWithin e)
  unfolding on_byte
  on_byte_lem ch s v time =
      dispatch-IsInTime s.mode (record s { in_buf = write ch s.in_buf }) (data_length s.in_buf) refl
        (write-IsSound ch v) time.0 time.1 (data_length-write s.in_buf ch v.valid)

  on_byte-IsSound :
      (ch : ℕ) (s : Assembler) → IsSound s.in_buf → IsSound (on_byte uniall addr ch s).1.in_buf
  unfolding on_byte
  on_byte-IsSound ch s v =
      dispatch-IsSound uniall addr s.mode (record s { in_buf = write ch s.in_buf })
        (data_length (write ch s.in_buf)) (write-IsSound ch v)

  enqueue-AllWithin :
      (o : Option SoTransmitterQueueElem) (rest : List SoTransmitterQueueElem × Assembler)
      → ((e : SoTransmitterQueueElem) → o ≡ some e → IsWithin e)
      → AllWithin rest.0
      → IsInTime rest.1
      → AllWithin (enqueue o rest).0 × IsInTime (enqueue o rest).1
  enqueue-AllWithin none rest one all time = (all, time)
  enqueue-AllWithin (some e) rest one all time = ((one e refl, all), time)

  -- On any bytes a packet is written behind its block only if its body was announced as empty.
  pub on_bytes-AllWithin :
      (chs : List ℕ) (s : Assembler)
      → IsSound s.in_buf
      → IsInTime s
      → AllWithin (on_bytes uniall addr chs s).0 × IsInTime (on_bytes uniall addr chs s).1
  unfolding on_bytes
  on_bytes-AllWithin [] s v time = (tt, time)
  on_bytes-AllWithin (ch ∷ chs) s v time =
      let (kept, one) = on_byte_lem ch s v time in
      let (all, time') =
        on_bytes-AllWithin chs (on_byte uniall addr ch s).1 (on_byte-IsSound ch s v) kept in
      enqueue-AllWithin (on_byte uniall addr ch s).0
        (on_bytes uniall addr chs (on_byte uniall addr ch s).1) one all time'
