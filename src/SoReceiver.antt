-- ===== src/SoReceiver.antt =====
-- so_receiver.c: the thread that reads a client's socket and cuts its bytes into packets.
pub mod Sound
pub mod Runs
pub mod Hunt
pub mod Collect
pub mod Framing
pub mod Any
pub mod Blocks
pub mod Stuck
pub mod Registration
mod Tests
pub use okto_wsd.Elements.{GateInQueueElement}
use okto_wsd.Base.{ℕ, ◌-◌, List, [], ◌∷◌, Option, none, some, if◌then◌else◌, leb, ◌==◌}
use okto_wsd.Packet.Wsd.{
  WsdPacket, parse_packet_header, wsd_preamble_size, wsd_preamble_r, wsd_header_size,
}
use okto_wsd.Ring.{
  Ring, create_ring_buffer, write, data_length, cmp_data, data_clear, read_all,
  rings_overflow_shift,
}

abbrev pub ring_buffer_size : ℕ
ring_buffer_size = 65535

pub data Mode : Type 0 where
  mode_preamble mode_header mode_body : Mode

-- The variables of the thread's loop. `packet` is not read before a header has been parsed.
pub record Receiver : Type 0 where
  pub in_buf : Ring
  pub mode : Mode
  pub packet : WsdPacket
  pub sbody : ℕ

-- The three branches of the loop's body, once the byte stands in the ring and `dlen` is known.
unfoldable pub in_preamble : Receiver → ℕ → Receiver
in_preamble s dlen =
    if leb wsd_preamble_size dlen
    then (if cmp_data (dlen - wsd_preamble_size) wsd_preamble_r wsd_preamble_size s.in_buf == 0
        then record s { in_buf = data_clear s.in_buf; mode = mode_header }
        else s)
    else s

unfoldable pub in_header : Receiver → ℕ → Receiver
in_header s dlen =
    if leb wsd_header_size dlen
    then (let (header, ring) = read_all s.in_buf in
        let packet = parse_packet_header s.packet header in
        record { in_buf = ring; mode = mode_body; packet = packet; sbody = packet.length })
    else s

-- The body goes to a block of `sbody` bytes. A ring that holds more, as when `sbody` is 0, is written
-- behind the block, which `requests_fit` of the queue's elements tests.
unfoldable pub in_body : ℕ → Receiver → ℕ → Option GateInQueueElement × Receiver
in_body socket s dlen =
    if leb s.sbody dlen
    then (let (body, ring) = read_all s.in_buf in
        (
          some (record {
            socket = socket;
            tid = s.packet.tid;
            action = s.packet.type;
            size = s.sbody;
            data' = body;
          }),
          record s { in_buf = ring; mode = mode_preamble },
        ))
    else (none, s)

unfoldable pub dispatch : ℕ → Mode → Receiver → ℕ → Option GateInQueueElement × Receiver
unfolding in_preamble in_header in_body
dispatch socket mode_preamble s dlen = (none, in_preamble s dlen)
dispatch socket mode_header s dlen = (none, in_header s dlen)
dispatch socket mode_body s dlen = in_body socket s dlen

-- One round of the loop, for a byte that was read: `ch` is `(uint8_t) ch`.
unfoldable pub on_byte : ℕ → ℕ → Receiver → Option GateInQueueElement × Receiver
unfolding dispatch
on_byte socket ch s =
    let ring = write ch s.in_buf in
    dispatch socket s.mode (record s { in_buf = ring }) (data_length ring)

-- What a round puts on the queue goes before what the later rounds put there.
abbrev pub enqueue :
    Option GateInQueueElement
    → List GateInQueueElement × Receiver
    → List GateInQueueElement × Receiver
enqueue none rest = rest
enqueue (some e) rest = (e ∷ rest.0, rest.1)

-- The loop over the bytes that arrive before the socket closes, and what it puts on the queue.
unfoldable pub receive : ℕ → List ℕ → Receiver → List GateInQueueElement × Receiver
receive socket [] s = ([], s)
receive socket (ch ∷ chs) s =
    let (out, s') = on_byte socket ch s in enqueue out (receive socket chs s')

-- The variables before the loop, over the memory of the ring.
unfoldable pub start : List ℕ → WsdPacket → Receiver
unfolding create_ring_buffer
start storage packet = record {
  in_buf = create_ring_buffer storage ring_buffer_size rings_overflow_shift;
  mode = mode_preamble;
  packet = packet;
  sbody = 0;
}
