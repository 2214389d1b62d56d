-- ===== src/System/Items.antt =====
-- What clients ask and radios answer, and what is to come of it.
use okto_wsd.Base.{
  ℕ, ◌+◌, ◌-◌, ◌^◌, ◌<◌, ◌≤◌, ◌≡◌, ◌≢◌, arith, List, [], ◌∷◌, ◌++◌, Bool, false, ◌&&◌, ◌||◌, Option,
  none, some, if◌then◌else◌, ◌==◌, ltb, map, drop, length, true,
}
use okto_wsd.Elements.{GateInQueueElement, RfTransmitterQueueElem, SoTransmitterQueueElem}
use okto_wsd.Map2.{Key}
use okto_wsd.Packet.Wsd
use okto_wsd.Packet.Wsd.{
  WsdPacket, wsd_type_transmit, wsd_type_receive, wsd_type_set_pipes_matrix, wsd_type_result,
}
use okto_wsd.Packet.Exb
use okto_wsd.Packet.Exb.{ExbPacket, exb_type_tick, exb_type_event, exb_type_eventc}
use okto_wsd.Packet.RoundTrip.{IsWsd, IsExb, skewed, skewed_eq_iff}
use okto_wsd.Ring.Search.{quiet}
use okto_wsd.Ring.Window.{contents}
use okto_wsd.SoReceiver
use okto_wsd.SoReceiver.{Receiver, receive}
use okto_wsd.SoReceiver.Sound.{IsSound}
use okto_wsd.SoReceiver.Framing.{element_of}
use okto_wsd.GateIn.Blob.{IsBytes, be_at}
use okto_wsd.GateIn.Registers.{Registers}
use okto_wsd.GateIn.Distinct.{matrix, IsDistinct}
use okto_wsd.GateIn.Matrix.{IsRefused, error_element}
use okto_wsd.Nrf24.{Device, Pipes}
use okto_wsd.SoTransmitter.{packet_of}
use okto_wsd.GateOut
use okto_wsd.Base.Endian.{be_bytes}
use okto_wsd.GateOut.{Assembler, on_bytes}
use okto_wsd.GateOut.Limits.{IsSound as IsOutSound}
use okto_wsd.System.{Event, from_client, from_radio}

-- What becomes of a matrix of addresses: it is taken, or refused with the number of an error.
pub data Verdict : Type 0 where
  accepted : Verdict
  refused : ℕ → Verdict

-- A client's request to transmit or to set the addresses, on its socket, or a radio's packet from
-- its address, with what fills up the last payload.
pub data Item : Type 0 where
  asks : ℕ → WsdPacket → Item
  sets : ℕ → WsdPacket → Verdict → Item
  answers : ℕ → ExbPacket → List ℕ → Item

abbrev pub event_of : Item → Event
event_of (asks socket p) = from_client socket (Wsd.to_binary p).0
event_of (sets socket p v) = from_client socket (Wsd.to_binary p).0
event_of (answers addr p padding) = from_radio addr ((Exb.to_binary p).0 ++ padding)

-- A whole request to transmit; the length has room for an address and the front of an ExB packet.
pub record IsAsk (p : WsdPacket) : Type 0 where
  pub wsd : IsWsd p
  pub transmits : p.type ≡ wsd_type_transmit
  pub long : 16 ≤ p.length
  pub short : p.length < SoReceiver.ring_buffer_size
  pub tid_small : p.tid < 2 ^ 24
  pub bytes : IsBytes p.body

-- A whole request to set the matrix of addresses.
pub record IsMatrix (p : WsdPacket) : Type 0 where
  pub wsd : IsWsd p
  pub sets_matrix : p.type ≡ wsd_type_set_pipes_matrix
  pub some_body : 0 < p.length
  pub short : p.length < SoReceiver.ring_buffer_size
  pub tid_small : p.tid < 2 ^ 24
  pub bytes : IsBytes p.body

-- A packet for clients, as long as the ring of the assembler takes it.
pub record IsAnswer (p : ExbPacket) : Type 0 where
  pub exb : IsExb p
  pub some_body : 0 < p.length
  pub short : p.length ≤ 240
  pub no_tick : p.type ≢ exb_type_tick
  pub tid_small : p.tid < 2 ^ 24

-- the element that a request becomes on the dispatcher's queue
abbrev pub request : ℕ → WsdPacket → GateInQueueElement
request socket p = record (element_of socket p) { tid = p.tid }

-- A matrix that a chip whose registers work accepts, or one that is refused; and the padding of a
-- radio's packet holds no preamble.
abbrev pub IsGood : Device → Item → Type 0
IsGood d (asks socket p) = IsAsk p
IsGood d (sets socket p accepted) =
    IsMatrix p × (40 ≤ p.length) × IsDistinct p.body × Registers d × (length (d.junk 1) ≡ 1)
IsGood d (sets socket p (refused error)) = IsMatrix p × IsRefused (request socket p) error
IsGood d (answers addr p padding) =
    IsAnswer p × (length padding < 32) × (quiet 0x3b [] padding ≡ true)

abbrev pub AllGood : Device → List Item → Type 0
AllGood d [] = Unit
AllGood d (item ∷ items) = IsGood d item × AllGood d items

-- Who asked last with an id, other than 0.
abbrev pub asked : Item → (ℕ → Option ℕ) → ℕ → Option ℕ
asked (asks socket p) old tid = if ltb 0 p.tid && (p.tid == tid) then some socket else old tid
asked (sets socket p v) old tid = if ltb 0 p.tid && (p.tid == tid) then some socket else old tid
asked (answers addr p padding) old tid = old tid

-- The answer to a request to set the addresses; the one byte of a result is what `malloc` gave.
abbrev pub reply_of : List ℕ → ℕ → Verdict → SoTransmitterQueueElem
reply_of blank tid accepted = record {
  tid = tid;
  type = wsd_type_result;
  uniall = false;
  size = 1;
  data' = blank;
}
reply_of blank tid (refused error) = error_element false error tid

-- the addresses after an item
abbrev pub set_by : Item → Pipes → Pipes
set_by (sets socket p accepted) old = matrix p.body
set_by (sets socket p (refused error)) old = old
set_by (asks socket p) old = old
set_by (answers addr p padding) old = old

abbrev pub set_by_all : List Item → Pipes → Pipes
set_by_all [] old = old
set_by_all (item ∷ items) old = set_by_all items (set_by item old)

-- The packet that a client is to get for a radio's: the address of the sender and the block.
abbrev pub answer_packet : ℕ → ℕ → ExbPacket → WsdPacket
answer_packet junk addr p = record {
  preamble = junk;
  tid = p.tid;
  type = wsd_type_receive;
  length = p.length + 19;
  body = be_bytes addr ++ (Exb.to_binary p).0;
}

abbrev pub to_owner : Option ℕ → List ℕ → List (ℕ × List ℕ)
to_owner none block = []
to_owner (some socket) block = (socket, block) ∷ []

-- Events are for all clients, whatever their id.
abbrev pub is_event : ExbPacket → Bool
is_event p = p.type == exb_type_event || (p.type == exb_type_eventc)

-- The writes of one packet from the radio.
abbrev pub writes : ℕ → List (Key × ℕ) → ℕ → ExbPacket → Option ℕ → List (ℕ × List ℕ)
writes junk glob_so_map addr p owner =
    let block = (Wsd.to_binary (answer_packet junk addr p)).0 in
    if is_event p then map (λ item. (item.1, block)) glob_so_map else to_owner owner block

-- what the sockets get, in order; a request to set the addresses is answered to its own client,
-- unless its id is 0
abbrev pub got : ℕ → List ℕ → List (Key × ℕ) → List Item → (ℕ → Option ℕ) → List (ℕ × List ℕ)
got junk blank glob_so_map [] owner = []
got junk blank glob_so_map (asks socket p ∷ items) owner =
    got junk blank glob_so_map items (asked (asks socket p) owner)
got junk blank glob_so_map (sets socket p v ∷ items) owner =
    to_owner (asked (sets socket p v) owner p.tid)
      (Wsd.to_binary (packet_of junk (reply_of blank p.tid v))).0
    ++ got junk blank glob_so_map items (asked (sets socket p v) owner)
got junk blank glob_so_map (answers addr p padding ∷ items) owner =
    writes junk glob_so_map addr p (owner p.tid) ++ got junk blank glob_so_map items owner

-- the element that a request becomes on the radio's queue
abbrev pub rf_element : WsdPacket → RfTransmitterQueueElem
rf_element p = record {
  addr = be_at p.body 0;
  tid = be_at p.body 12;
  size = p.length - 4;
  data' = drop 4 p.body;
}

-- The element that a radio's packet becomes on the queue to the sockets.
abbrev pub answer : ℕ → ExbPacket → SoTransmitterQueueElem
answer addr p = record {
  tid = p.tid;
  type = wsd_type_receive;
  uniall = is_event p;
  size = p.length + 19;
  data' = be_bytes addr ++ (Exb.to_binary p).0;
}

-- what the radio's queue gets, in order
abbrev pub for_radio : List Item → List RfTransmitterQueueElem
for_radio [] = []
for_radio (sets socket p v ∷ items) = for_radio items
for_radio (answers addr p padding ∷ items) = for_radio items
for_radio (asks socket p ∷ items) = rf_element p ∷ for_radio items

-- A receiving thread between two packets.
pub record IsIdle (r : Receiver) : Type 0 where
  pub between : r.mode ≡ SoReceiver.mode_preamble
  pub sound : IsSound r.in_buf
  pub empty : contents r.in_buf ≡ []

-- The assembler between two packets, and at its start, whatever its ring holds.
pub record IsWaiting (a : Assembler) : Type 0 where
  pub between : a.mode ≡ GateOut.mode_preamble
  pub sound : IsOutSound a.in_buf

pub skewed_id : (tid : ℕ) → tid < 2 ^ 24 → skewed tid ≡ tid
skewed_id tid h = (skewed_eq_iff tid (omega arith)).1 h
