-- ===== src/SocketHandler.antt =====
-- socket_handler.c and data_processor.c: an earlier form of the threads, which the build leaves
-- out: one reads a client's socket, the other passes what it asks for to the radio.
pub mod Framing
pub mod Stream
mod Tests
use okto_wsd.Base.{
  ℕ, zero, suc, ◌-◌, List, [], ◌∷◌, Option, none, some, if◌then◌else◌, leb, ◌==◌, get_or,
}
use okto_wsd.Ring.{
  Ring, create_ring_buffer, write, data_length, cmp_data, data_clear, read_all,
  rings_overflow_shift,
}
use okto_wsd.Rf

-- include/packet.h
abbrev pub preamble_size : ℕ
preamble_size = 8

abbrev pub header_size : ℕ
header_size = 4

-- The bytes of PREAMBLE in memory, the least significant first.
abbrev pub preamble : List ℕ
preamble = 0xaa ∷ 0xaa ∷ 0xaa ∷ 0xaa ∷ 0xaa ∷ 0xaa ∷ 0xaa ∷ 0x3f ∷ []

abbrev pub ring_buffer_size : ℕ
ring_buffer_size = 65355

pub data Mode : Type 0 where
  mode_preamble mode_header mode_body : Mode

-- include/data_processor.h
pub record QueueElement : Type 0 where
  pub action : ℕ
  pub size : ℕ
  pub data' : List ℕ

-- The variables of the loop of `SocketHandler_thread`.
pub record Handler : Type 0 where
  pub in_buf : Ring
  pub mode : Mode
  pub sbody : ℕ
  pub action : ℕ

unfoldable pub start : List ℕ → Handler
unfolding create_ring_buffer
start storage = record {
  in_buf = create_ring_buffer storage ring_buffer_size rings_overflow_shift;
  mode = mode_preamble;
  sbody = 0;
  action = 100;
}

unfoldable pub in_preamble : Handler → ℕ → Handler
in_preamble s dlen =
    if leb preamble_size dlen
    then (if cmp_data (dlen - preamble_size) preamble preamble_size s.in_buf == 0
        then record s { in_buf = data_clear s.in_buf; mode = mode_header }
        else s)
    else s

-- The action and the size are read from one byte each, `*header` and `*(header + 2)`.
unfoldable pub in_header : Handler → ℕ → Handler
in_header s dlen =
    if leb header_size dlen
    then (let (header, ring) = read_all s.in_buf in
        record {
          in_buf = ring;
          mode = mode_body;
          sbody = get_or header 2 0;
          action = get_or header 0 0;
        })
    else s

unfoldable pub in_body : Handler → ℕ → Option QueueElement × Handler
in_body s dlen =
    if leb s.sbody dlen
    then (let (body, ring) = read_all s.in_buf in
        (
          some (record { action = s.action; size = s.sbody; data' = body }),
          record s { in_buf = ring; mode = mode_preamble },
        ))
    else (none, s)

unfoldable pub dispatch : Mode → Handler → ℕ → Option QueueElement × Handler
unfolding in_preamble in_header in_body
dispatch mode_preamble s dlen = (none, in_preamble s dlen)
dispatch mode_header s dlen = (none, in_header s dlen)
dispatch mode_body s dlen = in_body s dlen

-- One round of the loop, for a byte that was read.
unfoldable pub on_byte : ℕ → Handler → Option QueueElement × Handler
unfolding dispatch
on_byte ch s =
    let ring = write ch s.in_buf in dispatch s.mode (record s { in_buf = ring }) (data_length ring)

abbrev pub enqueue : Option QueueElement → List QueueElement × Handler → List QueueElement × Handler
enqueue none rest = rest
enqueue (some e) rest = (e ∷ rest.0, rest.1)

-- The loop over the bytes that arrive before the socket closes, and what it puts on the queue.
unfoldable pub handle : List ℕ → Handler → List QueueElement × Handler
unfolding on_byte
handle [] s = ([], s)
handle (ch ∷ chs) s = let (out, s') = on_byte ch s in enqueue out (handle chs s')

abbrev pub action_transmit : ℕ
action_transmit = 0

-- `DataProcessor_thread`, which finds an element on its queue in so many rounds before the socket's
-- thread clears `alive`: what is still queued then is lost. A round that finds nothing changes
-- nothing. The result is the first queue of rf.c; the blocks of the payloads held `block`.
unfoldable pub process : List ℕ → ℕ → List QueueElement → List (List ℕ) → List (List ℕ)
unfolding Rf.transmit
process block zero es queue = queue
process block (suc rounds) [] queue = queue
process block (suc rounds) (e ∷ es) queue =
    process block rounds es
      (if e.action == action_transmit then (Rf.transmit block e.data' e.size queue).1 else queue)
