-- ===== src/GateOut/Limits.antt =====
-- A length that the ring of the radio side cannot hold.
use okto_wsd.Base.{ℕ, ◌+◌, ◌<◌, ◌≡◌, refl, ◌∙◌, arith, List, [], ◌∷◌, Bool, none, leb-false}
use okto_wsd.Elements.{GateOutQueueElement}
use okto_wsd.Packet.Exb.{ExbPacket}
use okto_wsd.Ring.{Ring, write, data_length, rings_overflow_shift}
use okto_wsd.Ring.Inv.{IsValid, write-IsValid, data_length-lt}
use okto_wsd.Ring.Refine.{size-write, politics-write}
use okto_wsd.GateOut.{
  Assembler, mode_preamble, mode_header, mode_body, on_byte, on_bytes, dispatch, in_body, run,
  payload_from,
}

-- An assembler in each of its modes.
abbrev pub hunting : Ring → ExbPacket → ℕ → Assembler
hunting r p n = record { in_buf = r; mode = mode_preamble; packet = p; sbody = n }

abbrev pub heading : Ring → ExbPacket → ℕ → Assembler
heading r p n = record { in_buf = r; mode = mode_header; packet = p; sbody = n }

abbrev pub filling : Ring → ExbPacket → ℕ → Assembler
filling r p n = record { in_buf = r; mode = mode_body; packet = p; sbody = n }

-- The ring of the thread.
pub record IsSound (r : Ring) : Type 0 where
  pub valid : IsValid r
  pub size : r.size ≡ 256
  pub shifting : r.overflow_politics ≡ rings_overflow_shift

pub write-IsSound : (ch : ℕ) {r : Ring} → IsSound r → IsSound (write ch r)
write-IsSound ch {r} v = record {
  valid = write-IsValid r ch v.valid;
  size = size-write r ch ∙ v.size;
  shifting = politics-write r ch ∙ v.shifting;
}

module _ (uniall : Bool) where
  byte_early :
      (addr ch : ℕ) (r : Ring) (p : ExbPacket) (n : ℕ)
      → data_length (write ch r) < n + 15
      → on_byte uniall addr ch (filling r p n) ≡ (none, filling (write ch r) p n)
  unfolding on_byte dispatch in_body
  byte_early addr ch r p n few =
      rw (leb-false (n + 7 + 8) (data_length (write ch r)) (omega arith)) refl

  on_bytes_stuck :
      (addr : ℕ) (chs : List ℕ) {r : Ring} (p : ExbPacket) (n : ℕ)
      → IsSound r
      → 240 < n
      → (r' : Ring) × (on_bytes uniall addr chs (filling r p n) ≡ ([], filling r' p n)) × IsSound r'
  unfolding on_bytes
  on_bytes_stuck addr [] {r} p n v big = (r, refl, v)
  on_bytes_stuck addr (ch ∷ chs) {r} p n v big =
      let v' = write-IsSound ch v in
      let (r', run', sound) = on_bytes_stuck addr chs p n v' big in
      let early =
        byte_early addr ch r p n (omega (arith, data_length-lt (write ch r) v'.valid, v'.size)) in
      (r', rw early run', sound)

  -- A header that announces more than 240 bytes stops the thread for good: in MODE_BODY with such
  -- a count no payloads, however many, put anything on the queue or change the mode.
  pub run_stuck :
      (es : List GateOutQueueElement) {r : Ring} (p : ExbPacket) (n : ℕ)
      → IsSound r
      → 240 < n
      → (r' : Ring) × (run uniall es (filling r p n) ≡ ([], filling r' p n)) × IsSound r'
  unfolding run
  run_stuck [] {r} p n v big = (r, refl, v)
  run_stuck (e ∷ es) {r} p n v big =
      let (r1, run1, sound1) = on_bytes_stuck e.addr (payload_from e.data' 32 0) p n v big in
      let (r2, run2, sound2) = run_stuck es p n sound1 big in (r2, rw (run1, run2) refl, sound2)
