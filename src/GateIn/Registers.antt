-- ===== src/GateIn/Registers.antt =====
-- The address registers of the chip: written with the addresses, they read back as written.
use okto_wsd.Base.{
  ℕ, ◌^◌, ◌<◌, ◌≤◌, ◌≡◌, ◌≢◌, refl, ap, ◌∙◌, arith, List, [], ◌∷◌, false, get_or, take,
}
use okto_wsd.Base.Word.{u8}
use okto_wsd.Base.Endian.{le_bytes}
use okto_wsd.Nrf24.{Device, Pipes, write_buf, read_buf}
use okto_wsd.Nrf24.Reg
use okto_wsd.GateIn.{write_pipes, read_pipes, chip_differs, load}
use okto_wsd.GateIn.Blob.{load-le_bytes}

-- What the chip's manual says of the address registers: a read gives what the register holds, from
-- the first byte on, and a write changes the first bytes of that register and no other.
pub record Registers (d : Device) : Type 0 where
  pub reg : ℕ → d.Chip → List ℕ
  pub read_value :
      (addr n : ℕ) (c : d.Chip)
      → 11 ≤ addr
      → addr ≤ 15
      → (read_buf d addr n c).0 ≡ take n (reg addr c)
  pub read_keeps :
      (addr n k : ℕ) (c : d.Chip) → 11 ≤ addr → addr ≤ 15 → reg k (read_buf d addr n c).1 ≡ reg k c
  pub write_value :
      (addr n : ℕ) (bytes : List ℕ) (c : d.Chip)
      → 11 ≤ addr
      → addr ≤ 15
      → take n (reg addr (write_buf d addr bytes n c)) ≡ take n bytes
  pub write_keeps :
      (addr n k : ℕ) (bytes : List ℕ) (c : d.Chip)
      → 11 ≤ addr
      → addr ≤ 15
      → k ≢ addr
      → reg k (write_buf d addr bytes n c) ≡ reg k c

module _ (d : Device) (law : Registers d) where
  open law use {reg, read_value, read_keeps, write_value, write_keeps}

  -- The registers once the addresses are written.
  module _ (a : Pipes) (ch : d.Chip) where
    first_written : take 4 (reg Reg.rx_addr_p1 (write_pipes d a ch)) ≡ le_bytes a.p1_targ
    unfolding write_pipes
    first_written =
        ap (take 4) (
          write_keeps 15 _ 11 _ _ (omega arith) (omega arith) (omega arith)
          ∙ write_keeps 14 _ 11 _ _ (omega arith) (omega arith) (omega arith)
          ∙ write_keeps 13 _ 11 _ _ (omega arith) (omega arith) (omega arith)
          ∙ write_keeps 12 _ 11 _ _ (omega arith) (omega arith) (omega arith))
        ∙ write_value 11 4 _ _ (omega arith) (omega arith)

    second_written : take 1 (reg Reg.rx_addr_p2 (write_pipes d a ch)) ≡ u8 a.p2_targ ∷ []
    unfolding write_pipes
    second_written =
        ap (take 1) (
          write_keeps 15 _ 12 _ _ (omega arith) (omega arith) (omega arith)
          ∙ write_keeps 14 _ 12 _ _ (omega arith) (omega arith) (omega arith)
          ∙ write_keeps 13 _ 12 _ _ (omega arith) (omega arith) (omega arith))
        ∙ write_value 12 1 _ _ (omega arith) (omega arith)

    third_written : take 1 (reg Reg.rx_addr_p3 (write_pipes d a ch)) ≡ u8 a.p3_targ ∷ []
    unfolding write_pipes
    third_written =
        ap (take 1) (
          write_keeps 15 _ 13 _ _ (omega arith) (omega arith) (omega arith)
          ∙ write_keeps 14 _ 13 _ _ (omega arith) (omega arith) (omega arith))
        ∙ write_value 13 1 _ _ (omega arith) (omega arith)

    fourth_written : take 1 (reg Reg.rx_addr_p4 (write_pipes d a ch)) ≡ u8 a.p4_targ ∷ []
    unfolding write_pipes
    fourth_written =
        ap (take 1) (write_keeps 15 _ 14 _ _ (omega arith) (omega arith) (omega arith))
        ∙ write_value 14 1 _ _ (omega arith) (omega arith)

    fifth_written : take 1 (reg Reg.rx_addr_p5 (write_pipes d a ch)) ≡ u8 a.p5_targ ∷ []
    unfolding write_pipes
    fifth_written = write_value 15 1 _ _ (omega arith) (omega arith)

  -- What `read_pipes` gives of any chip, and that it leaves the registers.
  read_pipes_value :
      (ch : d.Chip)
      → (read_pipes d ch).0
        ≡ load (take 4 (reg 11 ch)) 0
          ∷ get_or (take 1 (reg 12 ch)) 0 0
          ∷ get_or (take 1 (reg 13 ch)) 0 0
          ∷ get_or (take 1 (reg 14 ch)) 0 0
          ∷ get_or (take 1 (reg 15 ch)) 0 0
          ∷ []
  unfolding read_pipes
  read_pipes_value ch =
      let c1 = (read_buf d 11 4 ch).1 in
      let c2 = (read_buf d 12 1 c1).1 in
      let c3 = (read_buf d 13 1 c2).1 in
      let c4 = (read_buf d 14 1 c3).1 in
      let keep1 = λ (k : ℕ). read_keeps 11 4 k ch (omega arith) (omega arith) in
      let keep2 = λ (k : ℕ). read_keeps 12 1 k c1 (omega arith) (omega arith) ∙ keep1 k in
      let keep3 = λ (k : ℕ). read_keeps 13 1 k c2 (omega arith) (omega arith) ∙ keep2 k in
      let keep4 = λ (k : ℕ). read_keeps 14 1 k c3 (omega arith) (omega arith) ∙ keep3 k in
      rw
        (
          read_value 11 4 ch (omega arith) (omega arith),
          read_value 12 1 c1 (omega arith) (omega arith) ∙ ap (take 1) (keep1 12),
          read_value 13 1 c2 (omega arith) (omega arith) ∙ ap (take 1) (keep2 13),
          read_value 14 1 c3 (omega arith) (omega arith) ∙ ap (take 1) (keep3 14),
          read_value 15 1 c4 (omega arith) (omega arith) ∙ ap (take 1) (keep4 15),
        )
        refl

  pub chip_differs-written :
      (a : Pipes) (ch : d.Chip)
      → a.p1_targ < 2 ^ 32
      → chip_differs d a (read_pipes d (write_pipes d a ch)).0 ≡ false
  unfolding chip_differs
  chip_differs-written a ch b =
      rw
        (
          read_pipes_value (write_pipes d a ch),
          first_written a ch,
          second_written a ch,
          third_written a ch,
          fourth_written a ch,
          fifth_written a ch,
          load-le_bytes a.p1_targ b,
        )
        (ground arith)
