-- ===== src/GateOut/Hunt.antt =====
-- The assembler in MODE_PREAMBLE: a preamble is found whatever the ring holds, a full ring too.
use okto_wsd.Base.{
  ℕ, zero, suc, ◌+◌, ◌-◌, ◌<◌, ◌≡◌, ◌≢◌, refl, sym, ap, ◌∙◌, arith, List, [], ◌∷◌, ◌++◌, Bool, true,
  false, none, if◌then◌else◌, ◌==◌, leb-true, leb-false, le_cases, eq_cases, inl, inr, length, take,
  drop, length-append, drop-append, get_or, get_or-append_left, replicate,
}
use mathlib.Core.List.{append_assoc, append-nil}
use okto_wsd.Base.Int.{pos}
use okto_wsd.Packet.Exb.{ExbPacket, exb_preamble_r}
use okto_wsd.Ring.{Ring, write, data_length, shift_reader}
use okto_wsd.Ring.Inv.{data_length-lt, shift_reader-IsValid}
use okto_wsd.Ring.Window.{contents, length-contents}
use okto_wsd.Ring.Refine.{write_refines, push, shift_reader_refines}
use okto_wsd.Ring.Compare.{bytes_eq, cmp_data_lem}
use okto_wsd.Ring.Search.{found, quiet, quiet_step, found_long, found_short, found_preamble, missed}
use okto_wsd.SoReceiver.Sound.{contents_step}
use okto_wsd.GateOut.{Assembler, mode_header, in_preamble, dispatch, on_byte, on_bytes}
use okto_wsd.GateOut.Limits.{hunting, heading, IsSound, write-IsSound}

differs : ◌≢◌ {A = ℕ} 0x3b 0xaa
differs = omega arith

-- The ring with only its last eight bytes.
abbrev last_eight : Ring → Ring
last_eight r = shift_reader (pos (data_length r - 8)) r

if_zero :
    (b : Bool) (x y : Assembler)
    → (if (if b then 0 else 255) == 0 then x else y) ≡ (if b then x else y)
if_zero true x y = refl
if_zero false x y = refl

in_preamble_lem :
    (s : Assembler)
    → IsSound s.in_buf
    → in_preamble s (data_length s.in_buf) ≡ (
        if found 0x3b (contents s.in_buf)
        then record s { in_buf = last_eight s.in_buf; mode = mode_header }
        else s)
unfolding in_preamble
in_preamble_lem s v =
    let dlen = data_length s.in_buf in
    let c = contents s.in_buf in
    let few : dlen < 256 = omega (arith, data_length-lt s.in_buf v.valid, v.size) in
    elim (le_cases 8 dlen) [
      | inl h ↦
          rw
            (
              found_long 0x3b differs c dlen (length-contents s.in_buf) h,
              leb-true 8 dlen h,
              cmp_data_lem s.in_buf (dlen - 8) exb_preamble_r v.valid (omega arith)
                  (omega (arith, v.valid, v.size)),
            )
            (if_zero (bytes_eq (take 8 (drop (dlen - 8) c)) exb_preamble_r)
              (record s { in_buf = last_eight s.in_buf; mode = mode_header }) s)
      | inr h ↦
          rw (found_short 0x3b differs c dlen (length-contents s.in_buf) h, leb-false 8 dlen h) refl
    ]

push_full :
    (cap b : ℕ) (c q : List ℕ)
    → length q < cap
    → length (c ++ q) ≡ cap
    → (c' : List ℕ) × (push cap (c ++ q) b ≡ c' ++ (q ++ (b ∷ [])))
push_full cap b [] q few full = absurd (omega arith)
push_full cap b (x ∷ c) q few full = (c, ground (arith, append_assoc c q (b ∷ [])))

-- What a byte leaves of the bytes held: the last of them.
push_lem :
    (cap b : ℕ) (c q : List ℕ)
    → length q < cap
    → (c' : List ℕ) × (push cap (c ++ q) b ≡ c' ++ (q ++ (b ∷ [])))
push_lem cap b c q few = elim (eq_cases (length (c ++ q)) cap) [
  | inr room ↦ (c, ground (arith, append_assoc c q (b ∷ [])))
  | inl full ↦ push_full cap b c q few full
]

write_lem :
    (b : ℕ) (c q : List ℕ) {r : Ring}
    → IsSound r
    → contents r ≡ c ++ q
    → length q < 255
    → (c' : List ℕ) × (contents (write b r) ≡ c' ++ (q ++ (b ∷ [])))
write_lem b c q {r} v held few =
    let (c', e) = push_lem (r.size - 1) b c q (omega (arith, v.size)) in
    (c', write_refines r b v.valid v.shifting ∙ ap (λ l. push (r.size - 1) l b) held ∙ e)

module _ (uniall : Bool) (addr : ℕ) (p : ExbPacket) (n : ℕ) where
  -- A byte in MODE_PREAMBLE.
  hunt_byte :
      (b : ℕ) {r : Ring}
      → IsSound r
      → on_byte uniall addr b (hunting r p n) ≡ (
        none,
        if found 0x3b (contents (write b r))
            then heading (last_eight (write b r)) p n
            else hunting (write b r) p n,
      )
  unfolding on_byte dispatch
  hunt_byte b {r} v =
      ap (λ s. (none, s)) (in_preamble_lem (hunting (write b r) p n) (write-IsSound b v))

  hunt_on :
      (b : ℕ) (rest : List ℕ) {r : Ring}
      → IsSound r
      → found 0x3b (contents (write b r)) ≡ false
      → on_bytes uniall addr (b ∷ rest) (hunting r p n)
        ≡ on_bytes uniall addr rest (hunting (write b r) p n)
  unfolding on_bytes
  hunt_on b rest v miss = rw (hunt_byte b v, miss) refl

  hunt_end :
      (b : ℕ) (rest : List ℕ) {r : Ring}
      → IsSound r
      → found 0x3b (contents (write b r)) ≡ true
      → on_bytes uniall addr (b ∷ rest) (hunting r p n)
        ≡ on_bytes uniall addr rest (heading (last_eight (write b r)) p n)
  unfolding on_bytes
  hunt_end b rest v hit = rw (hunt_byte b v, hit) refl

  -- The bytes of a preamble behind its first, but for the last.
  hunt_rest :
      (k : ℕ) (c q rest : List ℕ) {r : Ring}
      → IsSound r
      → contents r ≡ c ++ q
      → 0 < length q
      → length q + k < 8
      → get_or q 0 0 ≡ 0x3b
      → (r' : Ring) × (c' : List ℕ) × (on_bytes uniall addr
            (replicate k 0xaa ++ rest)
            (hunting r p n)
          ≡ on_bytes uniall addr rest (hunting r' p n))
        × IsSound r'
        × (contents r' ≡ c' ++ (q ++ replicate k 0xaa))
  hunt_rest zero c q rest {r} v held some_q few first =
      (r, c, refl, v, held ∙ ap (λ l. c ++ l) (sym (append-nil q)))
  hunt_rest (suc k) c q rest {r} v held some_q few first =
      let q' : List ℕ = q ++ (0xaa ∷ []) in
      let l : length q' ≡ length q + 1 = length-append q (0xaa ∷ []) in
      let first' : get_or q' 0 0 ≡ 0x3b = get_or-append_left q (0xaa ∷ []) 0 0 some_q ∙ first in
      let (c1, held1) = write_lem 0xaa c q v held (omega arith) in
      let miss =
        ap (found 0x3b) held1 ∙ missed 0x3b differs c1 q' (omega arith) (omega arith) first' in
      let (r', c', run, sound, held') =
        hunt_rest k c1 q' rest {r = write 0xaa r} (write-IsSound 0xaa v) held1 (omega arith)
          (omega arith) first' in
      (
        r',
        c',
        hunt_on 0xaa (replicate k 0xaa ++ rest) v miss ∙ run,
        sound,
        held' ∙ ap (λ l. c' ++ l) (append_assoc q (0xaa ∷ []) (replicate k 0xaa)),
      )

  last_eight_lem :
      (c : List ℕ) {r : Ring}
      → IsSound r
      → contents r ≡ c ++ exb_preamble_r
      → IsSound (last_eight r) × (contents (last_eight r) ≡ exb_preamble_r)
  unfolding shift_reader
  last_eight_lem c {r} v held =
      let dlen = data_length r in
      let l : dlen ≡ length c + 8 =
        omega (arith, length-contents r, ap length held, length-append c exb_preamble_r) in
      (
        record {
          valid = shift_reader-IsValid r (dlen - 8) v.valid;
          size = v.size;
          shifting = v.shifting;
        },
        shift_reader_refines r (dlen - 8) v.valid (omega arith)
            ∙ ap (drop (dlen - 8)) held
            ∙ ap (λ k. drop k (c ++ exb_preamble_r)) {x = dlen - 8} {y = length c} (omega arith)
            ∙ drop-append c exb_preamble_r,
      )

  -- A preamble behind anything takes the thread to MODE_HEADER with just the preamble held.
  pub hunt_preamble :
      (rest : List ℕ) {r : Ring}
      → IsSound r
      → (r' : Ring) × (on_bytes uniall addr (exb_preamble_r ++ rest) (hunting r p n)
          ≡ on_bytes uniall addr rest (heading r' p n))
        × IsSound r'
        × (contents r' ≡ exb_preamble_r)
  hunt_preamble rest {r} v =
      let (c1, held1) =
        write_lem 0x3b (contents r) [] v (sym (append-nil (contents r))) (omega arith) in
      let miss =
        ap (found 0x3b) held1
        ∙ missed 0x3b differs c1 (0x3b ∷ []) (omega arith) (omega arith) refl in
      let (r2, c2, run2, sound2, held2) =
        hunt_rest 6 c1 (0x3b ∷ []) (0xaa ∷ rest) {r = write 0x3b r} (write-IsSound 0x3b v) held1
          (omega arith) (omega arith) refl in
      let (c3, held3) = write_lem 0xaa c2 (0x3b ∷ replicate 6 0xaa) sound2 held2 (omega arith) in
      let hit = ap (found 0x3b) held3 ∙ found_preamble 0x3b differs c3 in
      let (sound3, eight) = last_eight_lem c3 (write-IsSound 0xaa sound2) held3 in
      (
        last_eight (write 0xaa r2),
        hunt_on 0x3b (replicate 6 0xaa ++ (0xaa ∷ rest)) v miss
            ∙ run2
            ∙ hunt_end 0xaa rest sound2 hit,
        sound3,
        eight,
      )

  -- Bytes that hold no preamble are passed over.
  pub hunt_quiet :
      (bs : List ℕ) {r : Ring}
      → IsSound r
      → length (contents r) + length bs < 256
      → quiet 0x3b (contents r) bs ≡ true
      → (r' : Ring) × (on_bytes uniall addr bs (hunting r p n) ≡ ([], hunting r' p n)) × IsSound r'
  unfolding on_bytes
  hunt_quiet [] {r} v room q = (r, refl, v)
  hunt_quiet (b ∷ bs) {r} v room q =
      let (miss, rest) = quiet_step 0x3b differs (contents r) b bs q in
      let held = contents_step b v.valid (omega (arith, v.size)) in
      let (r', run, sound) =
        hunt_quiet bs {r = write b r} (write-IsSound b v)
          (omega (arith, ap length held, length-append (contents r) (b ∷ []))) (rw held rest) in
      (r', hunt_on b bs v (ap (found 0x3b) held ∙ miss) ∙ run, sound)
