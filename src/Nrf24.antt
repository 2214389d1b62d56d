-- ===== src/Nrf24.antt =====
-- NRF24.c: the driver of the radio chip, over the SPI bus and three pins. The delays have no
-- effect on the values and are left out; `CS_ON` and `CS_OFF` are empty on this host.
pub mod Reg
pub mod Lookup
pub mod Init
mod Tests
use okto_wsd.Base.{
  ℕ, zero, suc, ◌+◌, ◌*◌, ◌/◌, ◌%◌, ◌^◌, List, [], ◌∷◌, Bool, true, false, not, Option, none, some,
  if◌then◌else◌, ◌==◌, get_or, take, drop,
}
use okto_wsd.Nrf24.Reg
use okto_wsd.Base.Word.{u8, ◌&&&◌, ◌|||◌, ◌<<<◌, ◌>>>◌}
use okto_wsd.Base.Endian.{le_bytes}

-- The hardware behind wiringPi and spidev. `transfer` is `SPI_transmit`: the block goes out and
-- the reply of the same length comes back in its place. `junk` is what `malloc` leaves in a block.
pub record Device : Type 1 where
  pub Chip : Type 0
  pub transfer : List ℕ → Chip → List ℕ × Chip
  pub set_ce : Bool → Chip → Chip
  pub read_irq_pin : Chip → ℕ × Chip
  pub junk : ℕ → List ℕ

-- the addresses `a_p1_targ` to `a_p5_self`
pub record Pipes : Type 0 where
  pub p1_targ : ℕ
  pub p1_self : ℕ
  pub p2_targ : ℕ
  pub p2_self : ℕ
  pub p3_targ : ℕ
  pub p3_self : ℕ
  pub p4_targ : ℕ
  pub p4_self : ℕ
  pub p5_targ : ℕ
  pub p5_self : ℕ

abbrev pub initial_pipes : Pipes
initial_pipes = record {
  p1_targ = 0xffffffff;
  p1_self = 0xaaaaaaa1;
  p2_targ = 0xffffffff;
  p2_self = 0xaaaaaaa2;
  p3_targ = 0xffffffff;
  p3_self = 0xaaaaaaa3;
  p4_targ = 0xffffffff;
  p4_self = 0xaaaaaaa4;
  p5_targ = 0xffffffff;
  p5_self = 0xaaaaaaa5;
}

abbrev pub w_register : ℕ
w_register = 0x20

abbrev pub tx_pload_width : ℕ
tx_pload_width = 32

abbrev pub tx_adr_width : ℕ
tx_adr_width = 4

-- `none` is the -1 of the source.
unfoldable pub get_pipe_by_address : Pipes → ℕ → Option ℕ
get_pipe_by_address a addr =
    if a.p1_targ == addr
    then some 1
    else if a.p2_targ == addr
    then some 2
    else if a.p3_targ == addr
    then some 3
    else if a.p4_targ == addr
    then some 4
    else if a.p5_targ == addr
    then some 5
    else none

unfoldable pub get_addr_by_pipe : Pipes → ℕ → ℕ
get_addr_by_pipe a pipe =
    if pipe == 1
    then a.p1_targ
    else if pipe == 2
    then a.p2_targ
    else if pipe == 3
    then a.p3_targ
    else if pipe == 4
    then a.p4_targ
    else if pipe == 5
    then a.p5_targ
    else 0

-- the address that `NRF24_TX_Mode` sends from
unfoldable pub self_of_pipe : Pipes → ℕ → ℕ
self_of_pipe a pipe =
    if pipe == 1
    then a.p1_self
    else if pipe == 2
    then a.p2_self
    else if pipe == 3
    then a.p3_self
    else if pipe == 4
    then a.p4_self
    else a.p5_self

module _ (d : Device) where
  open d use {Chip, transfer, set_ce, read_irq_pin, junk}

  -- The two bytes of `dt` go out low byte first, and the value is the high byte that comes back.
  unfoldable pub read_reg : ℕ → Chip → ℕ × Chip
  read_reg addr c = let (reply, c') = transfer (addr ∷ 0 ∷ []) c in (get_or reply 1 0, c')

  unfoldable pub write_reg : ℕ → ℕ → Chip → Chip
  write_reg addr dt c = (transfer ((addr ||| w_register) ∷ dt ∷ []) c).1

  unfoldable pub read_buf : ℕ → ℕ → Chip → List ℕ × Chip
  read_buf addr bytes c =
      let (reply, c') = transfer (addr ∷ junk bytes) c in (take bytes (drop 1 reply), c')

  unfoldable pub write_buf : ℕ → List ℕ → ℕ → Chip → Chip
  write_buf addr buf bytes c = (transfer ((addr ||| w_register) ∷ take bytes buf) c).1

  unfoldable pub flush_rx : Chip → Chip
  flush_rx c = (transfer (Reg.flush_rx ∷ []) c).1

  unfoldable pub flush_tx : Chip → Chip
  flush_tx c = (transfer (Reg.flush_tx ∷ []) c).1

  unfoldable pub rx_mode : Pipes → Chip → Chip
  rx_mode a c =
      let c1 = write_buf Reg.rx_addr_p1 (le_bytes a.p1_targ) tx_adr_width c in
      let (regval, c2) = read_reg Reg.config c1 in
      let c3 = write_reg Reg.config (regval ||| ((1 <<< 1) ||| (1 <<< 0))) c2 in
      flush_tx (flush_rx (set_ce true c3))

  unfoldable pub tx_mode : Pipes → ℕ → Chip → Chip
  tx_mode a pipe c =
      let self = le_bytes (self_of_pipe a pipe) in
      let c1 = write_buf Reg.tx_addr self tx_adr_width c in
      let c2 = write_buf Reg.rx_addr_p0 self tx_adr_width c1 in
      flush_tx (flush_rx (set_ce false c2))

  unfoldable pub transmit : ℕ → List ℕ → ℕ → Chip → Chip
  transmit addr buf bytes c = set_ce true (write_buf addr buf bytes (set_ce false c))

  -- `while(read_irq_pin() == 1) {}`; `none` when the fuel runs out.
  unfoldable pub wait_irq : ℕ → Chip → Option Chip
  wait_irq zero c = none
  wait_irq (suc fuel) c =
      let (level, c') = read_irq_pin c in
      let rest = wait_irq fuel c' in if level == 1 then rest else some c'

  -- what is written back to STATUS once the chip has signalled
  unfoldable pub acknowledge : ℕ → Chip → Chip
  acknowledge status c =
      if not ((status &&& 0x20) == 0)
      then write_reg Reg.status 0x20 c
      else if not ((status &&& 0x10) == 0)
      then flush_tx (write_reg Reg.status 0x10 c)
      else c

  -- The part of `NRF24_Send` up to the wait, and the part behind it.
  unfoldable pub send_start : Pipes → List ℕ → ℕ → Chip → Chip
  send_start a buf pipe c =
      let (regval, c1) = read_reg Reg.config (tx_mode a pipe c) in
      let c2 = write_reg Reg.config ((regval ||| (1 <<< 1)) &&& 0xfe) c1 in
      set_ce false (set_ce true (transmit Reg.wr_tx_pload buf tx_pload_width c2))

  unfoldable pub send_end : Pipes → Chip → ℕ × Chip
  send_end a c =
      let (status, c1) = read_reg Reg.status c in
      let (regval, c2) = read_reg Reg.observe_tx (acknowledge status c1) in (regval, rx_mode a c2)

  unfoldable pub send : ℕ → Pipes → List ℕ → ℕ → Chip → Option (ℕ × Chip)
  send fuel a buf pipe c = elim (wait_irq fuel (send_start a buf pipe c)) [
    | none ↦ none
    | some c' ↦ some (send_end a c')
  ]

  unfoldable pub available : Chip → Bool × Chip
  available c = let (fs, c') = read_reg Reg.fifo_status c in ((fs &&& (1 <<< 0)) == 0, c')

  -- The payload, the address of the pipe that STATUS names, and the chip.
  unfoldable pub receive : Pipes → Chip → List ℕ × ℕ × Chip
  receive a c =
      let (status, c1) = read_reg Reg.status c in
      let (payload, c2) = read_buf Reg.rd_rx_pload tx_pload_width c1 in
      let c3 = write_reg Reg.status (status ||| 0x70) c2 in
      let pipe = u8 (status <<< 4) >>> 5 in (payload, get_addr_by_pipe a pipe, c3)

  -- One write after another.
  unfoldable pub write_regs : List (ℕ × ℕ) → Chip → Chip
  write_regs [] c = c
  write_regs ((addr, dt) ∷ rest) c = write_regs rest (write_reg addr dt c)

  unfoldable pub init : Pipes → Chip → Chip
  init a c = rx_mode a (
      write_regs
        ((Reg.config, 0x0a)
          ∷ (Reg.en_aa, 0x3f)
          ∷ (Reg.en_rxaddr, 0x3f)
          ∷ (Reg.setup_aw, 0x02)
          ∷ (Reg.setup_retr, 0x5f)
          ∷ (Reg.feature, 0)
          ∷ (Reg.dynpd, 0)
          ∷ (Reg.status, 0x70)
          ∷ (Reg.rf_ch, 76)
          ∷ (Reg.rf_setup, 0x06)
          ∷ (0x11, tx_pload_width)
          ∷ (0x12, tx_pload_width)
          ∷ (0x13, tx_pload_width)
          ∷ (0x14, tx_pload_width)
          ∷ (0x15, tx_pload_width)
          ∷ (0x16, tx_pload_width)
          ∷ [])
        (set_ce false c))
