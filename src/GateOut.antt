-- ===== src/GateOut.antt =====
-- gate_out.c: the thread that cuts the radio's payloads into packets and passes them to the clients.
pub mod Limits
pub mod Collect
pub mod Hunt
pub mod Runs
pub mod Framing
pub mod Any
pub mod Blocks
mod Tests
use okto_wsd.Base.{
  ℕ, zero, suc, ◌+◌, ◌-◌, List, [], ◌∷◌, ◌++◌, Bool, true, false, ◌||◌, Option, none, some,
  if◌then◌else◌, ◌==◌, leb, get_or,
}
use okto_wsd.Base.Int.{pos}
use okto_wsd.Base.Word.{u8, u16, ◌&&&◌, ◌>>>◌}
use okto_wsd.Elements.{GateOutQueueElement, SoTransmitterQueueElem}
use okto_wsd.Packet.Exb.{
  ExbPacket, parse_packet_header, exb_preamble_size, exb_preamble_r, exb_header_size,
  exb_type_event, exb_type_eventc, exb_type_tick,
}
use okto_wsd.Packet.Wsd.{wsd_type_receive}
use okto_wsd.Ring.{
  Ring, create_ring_buffer, write, data_length, cmp_data, data_clear, read_all, shift_reader,
  extract_data, rings_overflow_shift,
}

pub data Mode : Type 0 where
  mode_preamble mode_header mode_body : Mode

-- The variables of the thread's loop. `packet` is not read before a header has been parsed.
pub record Assembler : Type 0 where
  pub in_buf : Ring
  pub mode : Mode
  pub packet : ExbPacket
  pub sbody : ℕ

-- The ring of 256 bytes starts with the reader just behind the writer: it counts as full of
-- what its memory held.
unfoldable pub start : List ℕ → ExbPacket → Assembler
unfolding create_ring_buffer
start storage packet = record {
  in_buf = record (create_ring_buffer storage 256 rings_overflow_shift) { reader = 1; writer = 0 };
  mode = mode_preamble;
  packet = packet;
  sbody = 0;
}

unfoldable pub in_preamble : Assembler → ℕ → Assembler
in_preamble s dlen =
    if leb exb_preamble_size dlen
    then (if cmp_data (dlen - exb_preamble_size) exb_preamble_r exb_preamble_size s.in_buf == 0
        then record s {
          in_buf = shift_reader (pos (dlen - exb_preamble_size)) s.in_buf;
          mode = mode_header;
        }
        else s)
    else s

unfoldable pub in_header : Assembler → ℕ → Assembler
in_header s dlen =
    if leb (exb_header_size + exb_preamble_size) dlen
    then (let header =
          (extract_data (pos (s.in_buf.reader + exb_preamble_size)) exb_header_size s.in_buf).0 in
        let packet = parse_packet_header s.packet header in
        record s { mode = mode_body; packet = packet; sbody = packet.length })
    else s

-- the sender's address, in front of the packet
abbrev pub addr_bytes : ℕ → List ℕ
addr_bytes addr =
    u8 ((addr &&& 0xff000000) >>> 24)
    ∷ u8 ((addr &&& 0x00ff0000) >>> 16)
    ∷ u8 ((addr &&& 0x0000ff00) >>> 8)
    ∷ u8 (addr &&& 0x000000ff)
    ∷ []

-- The element of a packet; without an event `uniall` is left as `malloc` gave it.
unfoldable pub element_of : Bool → ℕ → ExbPacket → ℕ → List ℕ → SoTransmitterQueueElem
element_of uniall addr packet sbody held = record {
  tid = packet.tid;
  type = wsd_type_receive;
  uniall =
      if packet.type == exb_type_event || (packet.type == exb_type_eventc) then true else uniall;
  size = u16 (sbody + exb_header_size + exb_preamble_size + 4);
  data' = addr_bytes addr ++ held;
}

-- The packet goes to a block of `stotal` bytes, behind the address. A ring that holds more, as when
-- `sbody` is 0, is written behind the block, which `packets_fit` of the queue's elements tests.
unfoldable pub in_body : Bool → ℕ → Assembler → ℕ → Option SoTransmitterQueueElem × Assembler
unfolding element_of
in_body uniall addr s dlen =
    if leb (s.sbody + exb_header_size + exb_preamble_size) dlen
    then (if s.packet.type == exb_type_tick
        then (none, record s { in_buf = data_clear s.in_buf; mode = mode_preamble })
        else (let (held, ring) = read_all s.in_buf in
            (
              some (element_of uniall addr s.packet s.sbody held),
              record s { in_buf = data_clear ring; mode = mode_preamble },
            )))
    else (none, s)

unfoldable pub dispatch :
    Bool → ℕ → Mode → Assembler → ℕ → Option SoTransmitterQueueElem × Assembler
unfolding in_preamble in_header in_body
dispatch uniall addr mode_preamble s dlen = (none, in_preamble s dlen)
dispatch uniall addr mode_header s dlen = (none, in_header s dlen)
dispatch uniall addr mode_body s dlen = in_body uniall addr s dlen

-- One round of the inner loop.
unfoldable pub on_byte : Bool → ℕ → ℕ → Assembler → Option SoTransmitterQueueElem × Assembler
unfolding dispatch
on_byte uniall addr ch s =
    let ring = write ch s.in_buf in
    dispatch uniall addr s.mode (record s { in_buf = ring }) (data_length ring)

abbrev pub enqueue :
    Option SoTransmitterQueueElem
    → List SoTransmitterQueueElem × Assembler
    → List SoTransmitterQueueElem × Assembler
enqueue none rest = rest
enqueue (some e) rest = (e ∷ rest.0, rest.1)

-- The bytes of a payload that came from an address, and what they put on the queue.
unfoldable pub on_bytes : Bool → ℕ → List ℕ → Assembler → List SoTransmitterQueueElem × Assembler
on_bytes uniall addr [] s = ([], s)
on_bytes uniall addr (ch ∷ chs) s =
    let (out, s') = on_byte uniall addr ch s in enqueue out (on_bytes uniall addr chs s')

-- `payload[i]` for the `n` indices from `i` on
abbrev pub payload_from : List ℕ → (n i : ℕ) → List ℕ
payload_from payload zero i = []
payload_from payload (suc n) i = get_or payload i 0 ∷ payload_from payload n (i + 1)

-- The loop over the payloads that come off the queue.
unfoldable pub run :
    Bool → List GateOutQueueElement → Assembler → List SoTransmitterQueueElem × Assembler
unfolding on_bytes
run uniall [] s = ([], s)
run uniall (e ∷ es) s =
    let (out, s') = on_bytes uniall e.addr (payload_from e.data' 32 0) s in
    let (rest, s'') = run uniall es s' in (out ++ rest, s'')
