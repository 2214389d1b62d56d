-- ===== src/Nrf24/Init.antt =====
-- What the registers of the chip hold once NRF24_init (NRF24.c) has set it up.
use okto_wsd.Base.{
  ℕ, ◌^◌, ◌<◌, ◌≡◌, ◌≢◌, refl, ap, sym, ◌∙◌, arith, List, [], ◌∷◌, Bool, true, false, ◌||◌, ◌&&◌,
  ==_refl, ◌⊎◌, if◌then◌else◌, ◌==◌, ltb, inl, inr, eq_cases, ==_false,
}
use mathlib.Core.Path.{subst}
use okto_wsd.Base.Endian.{le_bytes}
use okto_wsd.Base.Word.{◌|||◌, ◌<<<◌}
use okto_wsd.Nrf24.Reg
use okto_wsd.Nrf24.{
  Device, Pipes, read_reg, write_reg, write_buf, flush_rx, flush_tx, rx_mode, write_regs, init,
  tx_adr_width, tx_pload_width,
}

-- How many bits of a register of one byte the manual lets a program set; STATUS is not among them.
abbrev pub bits : ℕ → ℕ
bits k =
    if k == Reg.config
    then 7
    else if k == Reg.en_aa || (k == Reg.en_rxaddr)
    then 6
    else if k == Reg.setup_aw
    then 2
    else if k == Reg.setup_retr
    then 8
    else if k == Reg.rf_ch
    then 7
    else if k == Reg.rf_setup
    then 6
    else if ltb 0x0b k && ltb k 0x10
    then 8
    else if ltb 0x10 k && ltb k 0x17
    then 6
    else if k == Reg.dynpd
    then 6
    else if k == Reg.feature
    then 3
    else 0

-- What the manual says of the registers of one byte: what is written to the bits of one is read
-- from it, a write changes no other, and neither reading, nor a write of an address, nor the flush
-- commands, nor the CE pin change any.
pub record Settings (d : Device) : Type 0 where
  pub value : ℕ → d.Chip → ℕ
  pub write_value :
      (k dt : ℕ) (c : d.Chip) → 0 < bits k → dt < 2 ^ bits k → value k (write_reg d k dt c) ≡ dt
  pub write_keeps :
      (k j dt : ℕ) (c : d.Chip)
      → 0 < bits k
      → k ≢ j
      → j < 32
      → value k (write_reg d j dt c) ≡ value k c
  pub read_value : (k : ℕ) (c : d.Chip) → 0 < bits k → (read_reg d k c).0 ≡ value k c
  pub read_keeps :
      (k j : ℕ) (c : d.Chip) → 0 < bits k → j < 32 → value k (read_reg d j c).1 ≡ value k c
  pub address_keeps :
      (k n : ℕ) (bytes : List ℕ) (c : d.Chip)
      → 0 < bits k
      → value k (write_buf d Reg.rx_addr_p1 bytes n c) ≡ value k c
  pub flush_rx_keeps : (k : ℕ) (c : d.Chip) → 0 < bits k → value k (flush_rx d c) ≡ value k c
  pub flush_tx_keeps : (k : ℕ) (c : d.Chip) → 0 < bits k → value k (flush_tx d c) ≡ value k c
  pub ce_keeps : (k : ℕ) (on : Bool) (c : d.Chip) → 0 < bits k → value k (d.set_ce on c) ≡ value k c

-- what a register holds after some writes, in order
abbrev pub settled : ℕ → List (ℕ × ℕ) → ℕ → ℕ
settled k [] v = v
settled k ((j, dt) ∷ rest) v = settled k rest (if j == k then dt else v)

-- Writes of registers, each within the bits of its register or to STATUS.
abbrev pub AllFit : List (ℕ × ℕ) → Type 0
AllFit [] = Unit
AllFit ((j, dt) ∷ rest) = (j < 32) × ((j ≡ Reg.status) ⊎ (dt < 2 ^ bits j)) × AllFit rest

-- The chip as a receiver, by the addresses of its registers.
abbrev pub set_up : List (ℕ × ℕ)
set_up =
    (Reg.config, 0x0b)
    ∷ (Reg.en_aa, 0x3f)
    ∷ (Reg.en_rxaddr, 0x3f)
    ∷ (Reg.setup_aw, 2)
    ∷ (Reg.setup_retr, 0x5f)
    ∷ (Reg.rf_ch, 76)
    ∷ (Reg.rf_setup, 6)
    ∷ (0x11, 32)
    ∷ (0x12, 32)
    ∷ (0x13, 32)
    ∷ (0x14, 32)
    ∷ (0x15, 32)
    ∷ (0x16, 32)
    ∷ (Reg.dynpd, 0)
    ∷ (Reg.feature, 0)
    ∷ []

-- what the source writes before the chip receives
abbrev writes : List (ℕ × ℕ)
writes =
    (Reg.config, 0x0a)
    ∷ (Reg.en_aa, 0x3f)
    ∷ (Reg.en_rxaddr, 0x3f)
    ∷ (Reg.setup_aw, 0x02)
    ∷ (Reg.setup_retr, 0x5f)
    ∷ (Reg.feature, 0)
    ∷ (Reg.dynpd, 0)
    ∷ (Reg.status, 0x70)
    ∷ (Reg.rf_ch, 76)
    ∷ (Reg.rf_setup, 0x06)
    ∷ (0x11, tx_pload_width)
    ∷ (0x12, tx_pload_width)
    ∷ (0x13, tx_pload_width)
    ∷ (0x14, tx_pload_width)
    ∷ (0x15, tx_pload_width)
    ∷ (0x16, tx_pload_width)
    ∷ []

writes-AllFit : AllFit writes
writes-AllFit = ground arith

module _ (d : Device) (law : Settings d) where
  open law use {
    value, write_value, write_keeps, read_value, read_keeps, address_keeps, flush_rx_keeps,
    flush_tx_keeps, ce_keeps,
  }

  write_reg_lem :
      (k j dt : ℕ) (c : d.Chip)
      → 0 < bits k
      → j < 32
      → (j ≡ Reg.status) ⊎ (dt < 2 ^ bits j)
      → value k (write_reg d j dt c) ≡ (if j == k then dt else value k c)
  write_reg_lem k j dt c settable low fit = elim (eq_cases j k) [
    | inr other ↦ rw (==_false j k other) (write_keeps k j dt c settable (λ e. other (sym e)) low)
    | inl same ↦ elim fit [
      | inl e ↦ absurd (ground (arith, same, e))
      | inr small ↦
          rw (same, ==_refl k)
            (write_value k dt c settable (subst (λ i. dt < 2 ^ bits i) same small))
    ]
  ]

  write_regs_lem :
      (l : List (ℕ × ℕ)) (k : ℕ) (c : d.Chip)
      → 0 < bits k
      → AllFit l
      → value k (write_regs d l c) ≡ settled k l (value k c)
  unfolding write_regs
  write_regs_lem [] k c settable fit = refl
  write_regs_lem ((j, dt) ∷ rest) k c settable (low, fits, fit) =
      write_regs_lem rest k (write_reg d j dt c) settable fit
      ∙ ap (settled k rest) (write_reg_lem k j dt c settable low fits)

  -- In receive mode only CONFIG has changed: it has PWR_UP and PRIM_RX.
  rx_mode_lem :
      (a : Pipes) (k : ℕ) (c : d.Chip)
      → 0 < bits k
      → value Reg.config c ≡ 0x0a
      → value k (rx_mode d a c) ≡ (if Reg.config == k then 0x0b else value k c)
  unfolding rx_mode
  rx_mode_lem a k c settable config =
      let c1 = write_buf d Reg.rx_addr_p1 (le_bytes a.p1_targ) tx_adr_width c in
      let c2 = (read_reg d Reg.config c1).1 in
      let on : (read_reg d Reg.config c1).0 ≡ 0x0a =
        read_value Reg.config c1 (omega arith)
        ∙ address_keeps Reg.config tx_adr_width (le_bytes a.p1_targ) c (omega arith)
        ∙ config in
      let same : value k c2 ≡ value k c =
        read_keeps k Reg.config c1 settable (omega arith)
        ∙ address_keeps k tx_adr_width (le_bytes a.p1_targ) c settable in
      flush_tx_keeps k _ settable
      ∙ flush_rx_keeps k _ settable
      ∙ ce_keeps k true _ settable
      ∙ ap (λ v. value k (write_reg d Reg.config (v ||| ((1 <<< 1) ||| (1 <<< 0))) c2)) on
      ∙ write_reg_lem k Reg.config 0x0b c2 settable (omega arith) (inr (omega arith))
      ∙ ap (λ v. if Reg.config == k then 0x0b else v) same

  -- What NRF24_init leaves in every register of one byte that a program can set: the chip is
  -- powered up and receives (CONFIG), acknowledges and listens on all pipes, with addresses of four
  -- bytes, up to 15 repetitions after 1500 us, on channel 76, with payloads of 32 bytes on each of
  -- the six pipes and none of the features; the address bytes of pipes 2 to 5, which `set_up` does
  -- not list, stay as they were.
  pub init_lem :
      (a : Pipes) (k : ℕ) (c : d.Chip)
      → 0 < bits k
      → value k (init d a c) ≡ settled k set_up (value k c)
  unfolding init
  init_lem a k c settable =
      let c0 = d.set_ce false c in
      let c1 = write_regs d writes c0 in
      let config : value Reg.config c1 ≡ 0x0a =
        write_regs_lem writes Reg.config c0 (omega arith) writes-AllFit in
      rx_mode_lem a k c1 settable config
      ∙ ap (λ v. if Reg.config == k then 0x0b else v)
          (write_regs_lem writes k c0 settable writes-AllFit
            ∙ ap (settled k writes) (ce_keeps k false c settable))
      ∙ ground arith
