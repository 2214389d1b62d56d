-- ===== src/SoTransmitter.antt =====
-- so_transmitter.c: the thread that writes packets to the clients' sockets. What it does is the
-- list of its writes, each with the socket; the result of `write` is not looked at by the source.
pub mod Broadcast
pub mod Reply
mod Tests
use okto_wsd.Base.{
  ℕ, zero, suc, List, [], ◌∷◌, ◌++◌, Bool, true, false, Option, none, some, if◌then◌else◌, take,
  length,
}
use okto_wsd.Elements.{SoTransmitterQueueElem}
use okto_wsd.Itoa.{Sprintf, itoa2}
use okto_wsd.Map2
use okto_wsd.Map2.{Key}
use okto_wsd.Map2.Iterator
use okto_wsd.Map2.Iterator.{MapIterator}
use okto_wsd.Packet.Wsd.{WsdPacket, to_binary}

-- The packet of an element; `preamble` is left as `malloc` gave it.
abbrev pub packet_of : ℕ → SoTransmitterQueueElem → WsdPacket
packet_of junk elem = record {
  preamble = junk;
  tid = elem.tid;
  type = elem.type;
  length = elem.size;
  body = elem.data';
}

-- `write(socket, bin, sbin)`
abbrev pub write_to : ℕ → List ℕ × ℕ → ℕ × List ℕ
write_to socket (bin, sbin) = (socket, take sbin bin)

-- The loop over the sockets, with the locked map as it is; `none` when the fuel runs out.
unfoldable pub write_all : ℕ → List ℕ × ℕ → MapIterator ℕ → Option (List (ℕ × List ℕ))
unfolding Iterator.has_next Iterator.next
write_all zero block it = none
write_all (suc fuel) block it = elim (Iterator.has_next it) [
  | false ↦ some []
  | true ↦ elim (Iterator.next it) [
    | none ↦ none
    | some (socket, it') ↦ elim (write_all fuel block it') [
      | none ↦ none
      | some ws ↦ some (write_to socket block ∷ ws)
    ]
  ]
]

-- One element: the writes, over the two maps.
unfoldable pub on_element :
    Sprintf
    → ℕ
    → ℕ
    → List (Key × ℕ)
    → List (Key × ℕ)
    → SoTransmitterQueueElem
    → Option (List (ℕ × List ℕ))
unfolding write_all Iterator.iterator_new
on_element c junk fuel tid_so_map glob_so_map elem =
    if elem.uniall
    then write_all fuel (to_binary (packet_of junk elem)) (Iterator.iterator_new glob_so_map)
    else elim (Map2.get (itoa2 c elem.tid) tid_so_map) [
      | none ↦ some []
      | some socket ↦ some (write_to socket (to_binary (packet_of junk elem)) ∷ [])
    ]
