-- ===== src/GateIn.antt =====
-- gate_in.c: the thread that carries out what clients ask for.
pub mod Msb
pub mod Blob
pub mod Distinct
pub mod Registers
pub mod Matrix
pub mod Transmit
pub mod Keeping
pub mod Frame
mod Tests
use okto_wsd.Base.{
  ℕ, zero, suc, ◌+◌, ◌-◌, ◌*◌, ◌%◌, ◌^◌, ◌<◌, ◌≤◌, List, [], ◌∷◌, ◌++◌, Bool, true, false, not,
  ◌&&◌, ◌||◌, Option, none, some, if◌then◌else◌, ◌==◌, ltb, leb, get_or, take, drop, length,
}
use okto_wsd.Base.Word.{u8, u16}
use okto_wsd.Base.Endian.{le_bytes, of_le_bytes, reverse_bytes}
use okto_wsd.Elements.{GateInQueueElement, RfTransmitterQueueElem, SoTransmitterQueueElem}
use okto_wsd.Itoa.{Sprintf, itoa2}
use okto_wsd.Map2.{Key}
use okto_wsd.Map2
use okto_wsd.Nrf24.{Device, Pipes, write_buf, read_buf, tx_adr_width}
use okto_wsd.Nrf24.Reg
use okto_wsd.Packet.Wsd.{
  wsd_type_transmit, wsd_type_set_pipes_matrix, wsd_type_error, wsd_type_result,
}
use okto_wsd.Packet.Exb.{exb_preamble_size}

abbrev pub error_broken_pipe_matrix : ℕ
error_broken_pipe_matrix = 1002

abbrev pub error_bad_pipe_msb : ℕ
error_bad_pipe_msb = 1003

abbrev pub error_chip_not_respond : ℕ
error_chip_not_respond = 1004

-- `memcpy` of four bytes into a `uint32_t`; the caller has checked that they are there.
abbrev pub load : List ℕ → ℕ → ℕ
load bytes at =
    of_le_bytes (get_or bytes at 0) (get_or bytes (at + 1) 0) (get_or bytes (at + 2) 0)
      (get_or bytes (at + 3) 0)

-- The element of an error; `uniall` is left as `malloc` gave it.
unfoldable pub complete_error : Bool → ℕ → ℕ → SoTransmitterQueueElem
complete_error uniall error tid = record {
  tid = tid;
  type = wsd_type_error;
  uniall = uniall;
  size = 4;
  data' = le_bytes (reverse_bytes error);
}

-- The element of a result: one byte, left as `malloc` gave it, and so is `uniall`.
unfoldable pub complete_empty_result : Bool → List ℕ → ℕ → SoTransmitterQueueElem
complete_empty_result uniall empty tid = record {
  tid = tid;
  type = wsd_type_result;
  uniall = uniall;
  size = 1;
  data' = empty;
}

-- The addresses of a matrix.
unfoldable pub pipes_of : List ℕ → Pipes
pipes_of bytes = record {
  p1_targ = reverse_bytes (load bytes 0);
  p1_self = reverse_bytes (load bytes 4);
  p2_targ = reverse_bytes (load bytes 8);
  p2_self = reverse_bytes (load bytes 12);
  p3_targ = reverse_bytes (load bytes 16);
  p3_self = reverse_bytes (load bytes 20);
  p4_targ = reverse_bytes (load bytes 24);
  p4_self = reverse_bytes (load bytes 28);
  p5_targ = reverse_bytes (load bytes 32);
  p5_self = reverse_bytes (load bytes 36);
}

-- `msb[5]`; the conversion to `uint8_t` keeps the low byte.
abbrev pub msb_of : Pipes → List ℕ
msb_of a = u8 a.p1_targ ∷ u8 a.p2_targ ∷ u8 a.p3_targ ∷ u8 a.p4_targ ∷ u8 a.p5_targ ∷ []

-- The inner loop from `j` on, with `left` rounds to go; it breaks at the first equal pair.
unfoldable pub ident_inner : List ℕ → (i left j : ℕ) → Bool → Bool
ident_inner msb i zero j ident = ident
ident_inner msb i (suc left) j ident =
    let rest = ident_inner msb i left (j + 1) ident in
    if not (j == i) && (get_or msb i 0 == get_or msb j 0) then true else rest

unfoldable pub ident_outer : List ℕ → (left i : ℕ) → Bool → Bool
unfolding ident_inner
ident_outer msb zero i ident = ident
ident_outer msb (suc left) i ident = ident_outer msb left (i + 1) (ident_inner msb i 5 0 ident)

-- what the thread works on
pub record GateIn (Chip : Type 0) : Type 0 where
  pub tid_so_map : List (Key × ℕ)
  pub pipes : Pipes
  pub rf_queue : List RfTransmitterQueueElem
  pub so_queue : List SoTransmitterQueueElem
  pub chip : Chip

module _ (d : Device) where
  open d use {Chip, junk}

  -- `none` is a read past the element's block.
  unfoldable pub on_transmit : GateInQueueElement → GateIn Chip → Option (GateIn Chip)
  on_transmit e s =
      if ltb (length e.data') (4 + exb_preamble_size + 4)
        || ltb (length e.data') (4 + u16 (e.size + 0x10000 - 4))
      then none
      else some (record s {
        rf_queue =
            s.rf_queue
            ++ (record {
              addr = reverse_bytes (load e.data' 0);
              tid = reverse_bytes (load e.data' (4 + exb_preamble_size));
              size = u16 (e.size + 0x10000 - 4);
              data' = take (u16 (e.size + 0x10000 - 4)) (drop 4 e.data');
            }
                ∷ []);
      })

  -- The target addresses to the chip, and back from it.
  unfoldable pub write_pipes : Pipes → Chip → Chip
  write_pipes a ch = write_buf d Reg.rx_addr_p5 (le_bytes a.p5_targ) 1 (
      write_buf d Reg.rx_addr_p4 (le_bytes a.p4_targ) 1 (
        write_buf d Reg.rx_addr_p3 (le_bytes a.p3_targ) 1 (
          write_buf d Reg.rx_addr_p2 (le_bytes a.p2_targ) 1
            (write_buf d Reg.rx_addr_p1 (le_bytes a.p1_targ) tx_adr_width ch))))

  -- The registers as read back: four bytes of the first, one of the others; and the chip.
  unfoldable pub read_pipes : Chip → List ℕ × Chip
  read_pipes ch =
      let (b1, ch1) = read_buf d Reg.rx_addr_p1 tx_adr_width ch in
      let (b2, ch2) = read_buf d Reg.rx_addr_p2 1 ch1 in
      let (b3, ch3) = read_buf d Reg.rx_addr_p3 1 ch2 in
      let (b4, ch4) = read_buf d Reg.rx_addr_p4 1 ch3 in
      let (b5, ch5) = read_buf d Reg.rx_addr_p5 1 ch4 in
      (load b1 0 ∷ get_or b2 0 0 ∷ get_or b3 0 0 ∷ get_or b4 0 0 ∷ get_or b5 0 0 ∷ [], ch5)

  -- the test that the chip has the addresses
  unfoldable pub chip_differs : Pipes → List ℕ → Bool
  chip_differs a r =
      not (get_or r 0 0 == a.p1_targ)
      || not (get_or r 1 0 == u8 a.p2_targ)
      || not (get_or r 2 0 == u8 a.p3_targ)
      || not (get_or r 3 0 == u8 a.p4_targ)
      || not (get_or r 4 0 == u8 a.p5_targ)

  -- The state, and whether the round goes on to free the element.
  unfoldable pub on_matrix : Bool → GateInQueueElement → GateIn Chip → GateIn Chip × Bool
  unfolding pipes_of ident_outer
  on_matrix uniall e s =
      let fail = λ (error : ℕ) (t : GateIn Chip).
        let after : GateIn Chip = record t {
          so_queue = t.so_queue ++ (complete_error uniall error e.tid ∷ []);
        } in
        after in
      let a = pipes_of e.data' in
      let (read, ch) = read_pipes (write_pipes a s.chip) in
      let set : GateIn Chip = record s { pipes = a; chip = ch } in
      if ltb e.size 40
      then (fail error_broken_pipe_matrix s, false)
      else if ident_outer (msb_of a) 5 0 false
      then (fail error_bad_pipe_msb s, false)
      else if chip_differs a read
      then (fail error_chip_not_respond set, false)
      else (
        record set { so_queue = s.so_queue ++ (complete_empty_result uniall (junk 1) e.tid ∷ []) },
        true,
      )

module _ {Chip : Type 0} (c : Sprintf) where
  -- the relation of the transaction to the client's socket
  unfoldable pub store_tid : GateInQueueElement → GateIn Chip → GateIn Chip
  unfolding Map2.add itoa2
  store_tid e s =
      if ltb 0 e.tid
      then record s { tid_so_map = Map2.add (itoa2 c e.tid) e.socket s.tid_so_map }
      else s

module _ (d : Device) (c : Sprintf) (uniall : Bool) where
  open d use {Chip}

  -- One round for an element taken from the queue.
  unfoldable pub on_element : GateInQueueElement → GateIn Chip → Option (GateIn Chip × Bool)
  unfolding store_tid on_transmit on_matrix
  on_element e s =
      if e.action == wsd_type_transmit
      then elim (on_transmit d e (store_tid c e s)) [ none ↦ none | some t ↦ some (t, true) ]
      else if e.action == wsd_type_set_pipes_matrix
      then some (on_matrix d uniall e (store_tid c e s))
      else some (store_tid c e s, true)

  -- The loop over the elements as they come off the queue.
  unfoldable pub run : List GateInQueueElement → GateIn Chip → Option (GateIn Chip)
  run [] s = some s
  run (e ∷ es) s = elim (on_element e s) [ none ↦ none | some (t, freed) ↦ run es t ]
