-- ===== src/GateOut/Collect.antt =====
-- The assembler between packets: how the bytes of a packet go through its modes.
use okto_wsd.Base.{
  ℕ, suc, ◌+◌, ◌<◌, ◌≤◌, ◌≡◌, ◌≢◌, refl, sym, ap, ◌∙◌, arith, List, [], ◌∷◌, ◌++◌, Bool, none, some,
  leb-true, leb-false, ==_false, length, take, drop, length-append,
}
use mathlib.Core.List.{append_assoc, append-nil}
use okto_wsd.Packet.Exb.{ExbPacket, parse_packet_header, exb_type_tick}
use okto_wsd.Ring.{Ring, write, data_length, data_clear}
use okto_wsd.Ring.Window.{contents}
use okto_wsd.Ring.Refine.{contents-data_clear, read_all_lem}
use okto_wsd.Ring.Extract.{extract_data_lem}
use okto_wsd.SoReceiver.Sound.{contents_step, length_step}
use okto_wsd.GateOut.{Assembler, on_byte, on_bytes, dispatch, in_header, in_body, element_of}
use okto_wsd.GateOut.Limits.{hunting, heading, filling, IsSound, write-IsSound}

-- An emptied ring.
cleared : {r : Ring} → IsSound r → IsSound (data_clear (record r { reader = r.writer }))
unfolding data_clear
cleared {r} v = omega arith

module _ (uniall : Bool) (addr : ℕ) where
  module _ (b : ℕ) {r : Ring} (p : ExbPacket) (n : ℕ) (v : IsSound r)
      (room : suc (length (contents r)) < 256) where
    stored : contents (write b r) ≡ contents r ++ (b ∷ [])
    stored = contents_step b v.valid (omega (arith, v.size))

    count : data_length (write b r) ≡ suc (length (contents r))
    count = length_step b v.valid (omega (arith, v.size))

    pub head_early :
        suc (length (contents r)) < 15
        → on_byte uniall addr b (heading r p n) ≡ (none, heading (write b r) p n)
    unfolding on_byte dispatch in_header
    head_early few = rw (leb-false 15 (data_length (write b r)) (omega (arith, count))) refl

    pub head_last :
        suc (length (contents r)) ≡ 15
        → let q = parse_packet_header p (take 7 (drop 8 (contents r ++ (b ∷ [])))) in
          on_byte uniall addr b (heading r p n) ≡ (none, filling (write b r) q q.length)
    unfolding on_byte dispatch in_header
    head_last few =
        rw
          (
            leb-true 15 (data_length (write b r)) (omega (arith, count)),
            extract_data_lem (write b r) 8 7 (write-IsSound b v).valid (omega (arith, count)),
            stored,
          )
          refl

    fill_early :
        suc (length (contents r)) < n + 15
        → on_byte uniall addr b (filling r p n) ≡ (none, filling (write b r) p n)
    unfolding on_byte dispatch in_body
    fill_early few =
        rw (leb-false (n + 7 + 8) (data_length (write b r)) (omega (arith, count))) refl

    fill_last :
        n + 15 ≤ suc (length (contents r))
        → p.type ≢ exb_type_tick
        → on_byte uniall addr b (filling r p n) ≡ (
          some (element_of uniall addr p n (contents r ++ (b ∷ []))),
          hunting (data_clear (record (write b r) { reader = (write b r).writer })) p n,
        )
    unfolding on_byte dispatch in_body
    fill_last few other =
        rw
          (
            leb-true (n + 7 + 8) (data_length (write b r)) (omega (arith, count)),
            ==_false p.type exb_type_tick other,
            read_all_lem (write b r) (write-IsSound b v).valid,
            stored,
          )
          refl

  -- Bytes that do not yet complete what a mode waits for are kept.
  pub absorb :
      (mode : Ring → Assembler) (t : ℕ)
      → ((b : ℕ) (r : Ring)
          → IsSound r
          → suc (length (contents r)) < 256
          → suc (length (contents r)) < t
          → on_byte uniall addr b (mode r) ≡ (none, mode (write b r)))
      → (bs rest : List ℕ) {r : Ring} → IsSound r
      → length (contents r) + length bs < t
      → t ≤ 256
      → (r' : Ring) × (on_bytes uniall addr (bs ++ rest) (mode r)
          ≡ on_bytes uniall addr rest (mode r'))
        × IsSound r'
        × (contents r' ≡ contents r ++ bs)
  unfolding on_bytes
  absorb mode t early [] rest {r} v few fits = (r, refl, v, sym (append-nil (contents r)))
  absorb mode t early (b ∷ bs) rest {r} v few fits =
      let grown : contents (write b r) ≡ contents r ++ (b ∷ []) =
        contents_step b v.valid (omega (arith, v.size)) in
      let (r', run, sound, held) =
        absorb mode t early bs rest {r = write b r} (write-IsSound b v)
          (omega (arith, ap length grown, length-append (contents r) (b ∷ []))) fits in
      (
        r',
        rw (early b r v (omega arith) (omega arith)) run,
        sound,
        held ∙ ap (λ c. c ++ bs) grown ∙ append_assoc (contents r) (b ∷ []) bs,
      )

  -- The bytes of a body, the last of which completes the packet.
  pub collect_body :
      (p : ExbPacket) (n : ℕ) (all bs : List ℕ) {r : Ring}
      → p.type ≢ exb_type_tick
      → IsSound r
      → 0 < length bs
      → contents r ++ bs ≡ all
      → length all ≡ n + 15
      → n ≤ 240
      → (r' : Ring) × (on_bytes uniall addr bs (filling r p n)
          ≡ (element_of uniall addr p n all ∷ [], hunting r' p n))
        × IsSound r'
        × (contents r' ≡ [])
  unfolding on_bytes
  collect_body p n all [] other v some_left e l small = absurd (omega arith)
  collect_body p n all (b ∷ []) {r} other v some_left e l small =
      let k : suc (length (contents r)) ≡ n + 15 =
        omega (arith, ap length e, length-append (contents r) (b ∷ [])) in
      let done = record (write b r) { reader = (write b r).writer } in
      (
        data_clear done,
        rw (fill_last b p n v (omega arith) (omega arith) other, e) refl,
        cleared (write-IsSound b v),
        contents-data_clear done,
      )
  collect_body p n all (b ∷ c ∷ bs) {r} other v some_left e l small =
      let k : suc (length (contents r)) < n + 15 =
        omega (arith, ap length e, length-append (contents r) (b ∷ c ∷ bs)) in
      let grown : contents (write b r) ≡ contents r ++ (b ∷ []) =
        contents_step b v.valid (omega (arith, v.size)) in
      let (r', run, sound, empty) =
        collect_body p n all (c ∷ bs) {r = write b r} other (write-IsSound b v) (omega arith)
          (ap (λ l. l ++ (c ∷ bs)) grown ∙ append_assoc (contents r) (b ∷ []) (c ∷ bs) ∙ e) l
          small in
      (r', rw (fill_early b p n v (omega arith) k) run, sound, empty)
