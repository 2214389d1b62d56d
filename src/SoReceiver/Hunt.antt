-- ===== src/SoReceiver/Hunt.antt =====
-- The receiver in MODE_PREAMBLE: which bytes it passes over, and that it finds a preamble.
use okto_wsd.Base.{
  replicate, length-append, ℕ, suc, ◌+◌, ◌-◌, ◌^◌, ◌<◌, ◌≡◌, ◌≢◌, refl, ap, ◌∙◌, sym, arith, List,
  [], ◌∷◌, ◌++◌, none, Bool, true, false, if◌then◌else◌, ◌==◌, leb-true, leb-false, le_cases,
  length, take, drop, inl, inr,
}
use mathlib.Core.List.{append_assoc, append-nil}
use okto_wsd.Packet.Wsd.{WsdPacket, wsd_preamble_r, wsd_preamble_size}
use okto_wsd.Ring.{Ring, write, data_length, data_clear}
use okto_wsd.Ring.Inv.{IsValid, write-IsValid}
use okto_wsd.Ring.Window.{contents, length-contents}
use okto_wsd.Ring.Refine.{contents-data_clear}
use okto_wsd.Ring.Compare.{bytes_eq, cmp_data_lem}
use okto_wsd.Ring.Search.{
  found, quiet, quiet_step, found_long, found_short, found_preamble, quiet_seven,
}
use okto_wsd.SoReceiver.{
  mode_header, Receiver, in_preamble, dispatch, on_byte, receive, ring_buffer_size,
}
use okto_wsd.SoReceiver.Runs.{receive_silent, receive-then}
use okto_wsd.SoReceiver.Sound.{
  data_clear-IsSound, IsSound, write-IsSound, hunting, heading, contents_step, reader_step,
  length_step, Extended, grown,
}

differs : ◌≢◌ {A = ℕ} 0x3f 0xaa
differs = omega arith

if_zero :
    (b : Bool) (x y : Receiver)
    → (if (if b then 0 else 255) == 0 then x else y) ≡ (if b then x else y)
if_zero true x y = refl
if_zero false x y = refl

-- The test of MODE_PREAMBLE asks whether what is held ends in a preamble, if the comparison starts
-- below 2 ^ 16.
in_preamble_lem :
    (s : Receiver)
    → IsValid s.in_buf
    → s.in_buf.reader + (data_length s.in_buf - wsd_preamble_size) < 2 ^ 16
    → in_preamble s (data_length s.in_buf) ≡ (
        if found 0x3f (contents s.in_buf)
        then record s { in_buf = data_clear s.in_buf; mode = mode_header }
        else s)
unfolding in_preamble
in_preamble_lem s v small = elim (le_cases wsd_preamble_size (data_length s.in_buf)) [
  | inl h ↦
      rw
        (
          found_long 0x3f differs (contents s.in_buf) (data_length s.in_buf)
              (length-contents s.in_buf) h,
          leb-true wsd_preamble_size (data_length s.in_buf) h,
          cmp_data_lem s.in_buf (data_length s.in_buf - wsd_preamble_size) wsd_preamble_r v
              (omega arith) small,
        )
        (if_zero
          (bytes_eq
            (take wsd_preamble_size
              (drop (data_length s.in_buf - wsd_preamble_size) (contents s.in_buf)))
            wsd_preamble_r)
          (record s { in_buf = data_clear s.in_buf; mode = mode_header }) s)
  | inr h ↦ rw (
    found_short 0x3f differs (contents s.in_buf) (data_length s.in_buf) (length-contents s.in_buf)
        h,
    leb-false wsd_preamble_size (data_length s.in_buf) h,
  )
]

module _ (socket : ℕ) (p : WsdPacket) (n : ℕ) where
  -- A byte in MODE_PREAMBLE.
  hunt_byte :
      (ch : ℕ) {r : Ring}
      → IsSound r
      → suc (length (contents r)) < ring_buffer_size
      → r.reader + (suc (length (contents r)) - wsd_preamble_size) < 2 ^ 16
      → on_byte socket ch (hunting r p n) ≡ (
        none,
        if found 0x3f (contents r ++ (ch ∷ []))
            then heading (data_clear (write ch r)) p n
            else hunting (write ch r) p n,
      )
  unfolding on_byte dispatch
  hunt_byte ch {r} v room small =
      ap (λ s. (none, s))
        (in_preamble_lem (hunting (write ch r) p n) (write-IsValid r ch v.valid) (
            omega
              (arith, length_step ch v.valid (omega arith), reader_step ch v.valid (omega arith)))
          ∙ ap
              (λ c.
                if found 0x3f c
                then heading (data_clear (write ch r)) p n
                else hunting (write ch r) p n)
              (contents_step ch v.valid (omega arith)))

  hunt_quiet :
      (bs : List ℕ) {r : Ring}
      → IsSound r
      → length (contents r) + length bs < ring_buffer_size
      → r.reader + (length (contents r) + length bs - wsd_preamble_size) < 2 ^ 16
      → quiet 0x3f (contents r) bs ≡ true
      → (r' : Ring) × (receive socket bs (hunting r p n) ≡ ([], hunting r' p n)) × Extended r bs r'
  unfolding receive
  hunt_quiet [] {r} v room small q =
      (r, refl, record { sound = v; held = sym (append-nil (contents r)); reader = refl })
  hunt_quiet (b ∷ bs) {r} v room small q =
      let (miss, rest) = quiet_step 0x3f differs (contents r) b bs q in
      let e = contents_step b v.valid (omega arith) in
      let same = reader_step b v.valid (omega arith) in
      let (r', run, x) =
        hunt_quiet bs {r = write b r} (write-IsSound b v)
          (rw e (omega (arith, grown (contents r) b)))
          (rw (e, same) (omega (arith, grown (contents r) b))) (rw e rest) in
      (
        r',
        receive_silent socket b bs (hunting r p n) (hunting (write b r) p n) (
              hunt_byte b v (omega arith) (omega arith)
              ∙ ap
                  (λ t. (
                    none,
                    if t then heading (data_clear (write b r)) p n else hunting (write b r) p n,
                  ))
                  miss)
            ∙ run,
        record {
          sound = x.sound;
          held = x.held ∙ ap (λ c. c ++ bs) e ∙ append_assoc (contents r) (b ∷ []) bs;
          reader = x.reader ∙ same;
        },
      )

  -- A preamble behind anything that is held takes the thread to MODE_HEADER with an empty ring.
  pub hunt_preamble :
      {r : Ring}
      → IsSound r
      → length (contents r) + wsd_preamble_size < ring_buffer_size
      → r.reader + length (contents r) < 2 ^ 16
      → (r' : Ring) × (receive socket wsd_preamble_r (hunting r p n) ≡ ([], heading r' p n))
        × IsSound r'
        × (contents r' ≡ [])
  unfolding receive
  hunt_preamble {r} v room small =
      let (r', run, x) =
        hunt_quiet (0x3f ∷ replicate 6 0xaa) v (omega arith) (omega arith)
          (quiet_seven 0x3f differs (contents r)) in
      let l : length (contents r') ≡ length (contents r) + 7 =
        omega (arith, ap length x.held, length-append (contents r) (0x3f ∷ replicate 6 0xaa)) in
      (
        data_clear (write 0xaa r'),
        receive-then socket (0x3f ∷ replicate 6 0xaa) (0xaa ∷ []) (hunting r p n) (hunting r' p n)
              [] run
            ∙ receive_silent socket 0xaa [] (hunting r' p n)
                (heading (data_clear (write 0xaa r')) p n)
                (hunt_byte 0xaa x.sound (omega arith) (omega (arith, x.reader))
                  ∙ ap
                      (λ t. (
                        none,
                        if t
                            then heading (data_clear (write 0xaa r')) p n
                            else hunting (write 0xaa r') p n,
                      ))
                      (ap (λ c. found 0x3f (c ++ (0xaa ∷ []))) x.held
                        ∙ ap (found 0x3f)
                            (append_assoc (contents r) (0x3f ∷ replicate 6 0xaa) (0xaa ∷ []))
                        ∙ found_preamble 0x3f differs (contents r))),
        data_clear-IsSound (write-IsSound 0xaa x.sound),
        contents-data_clear (write 0xaa r'),
      )
