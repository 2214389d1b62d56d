-- ===== src/RfTransmitter.antt =====
-- rf_transmitter.c: the thread that cuts packets into payloads of the radio and sends them.
pub mod Fragments
pub mod Route
pub mod Straight
mod Tests
use okto_wsd.Base.{
  ℕ, zero, suc, ◌+◌, ◌-◌, ◌*◌, ◌/◌, ◌%◌, ◌^◌, List, [], ◌∷◌, ◌++◌, Bool, true, false, Option, none,
  some, if◌then◌else◌, ltb, leb, take, drop,
}
use okto_wsd.Base.Word.{u8, u16, ◌&&&◌}
use okto_wsd.Base.Endian.{le_bytes, reverse_bytes}
use okto_wsd.Elements.{RfTransmitterQueueElem, PipeQueueElem, SoTransmitterQueueElem}
use okto_wsd.Nrf24.{Device, Pipes, get_pipe_by_address, send}
use okto_wsd.Packet.Wsd.{wsd_type_error}

abbrev pub error_addr_unreachable : ℕ
error_addr_unreachable = 1000

abbrev pub error_addr_not_defined : ℕ
error_addr_not_defined = 1001

-- The element of an error; `uniall` is left as `malloc` gave it.
unfoldable pub complete_error : Bool → ℕ → ℕ → SoTransmitterQueueElem
complete_error uniall error tid = record {
  tid = tid;
  type = wsd_type_error;
  uniall = uniall;
  size = 4;
  data' = le_bytes (reverse_bytes error);
}

-- `ceil((double) size / 32)`: the quotient is exact in a `double`.
abbrev pub frags_of : ℕ → ℕ
frags_of size = u16 ((size + 31) / 32)

-- `len` of the fragment at the index `i`
abbrev pub len_of : (size i : ℕ) → ℕ
len_of size i = if ltb size (u16 (i * 32) + 32) then u8 (size - i * 32) else 32

-- The fragment at the index `i`, in a block that held `block`.
unfoldable pub fragment : List ℕ → RfTransmitterQueueElem → ℕ → PipeQueueElem
fragment block e i = record {
  ft = 0;
  tid = u16 e.tid;
  size = 32;
  data' = take (len_of e.size i) (drop (u16 (i * 32)) e.data') ++ drop (len_of e.size i) block;
}

-- The loop over the fragments from `i` on, with `left` to go.
unfoldable pub fragments_from : List ℕ → RfTransmitterQueueElem → (left i : ℕ) → List PipeQueueElem
unfolding fragment
fragments_from block e zero i = []
fragments_from block e (suc left) i = fragment block e i ∷ fragments_from block e left (u16 (i + 1))

unfoldable pub fragments : List ℕ → RfTransmitterQueueElem → List PipeQueueElem
unfolding fragments_from
fragments block e = fragments_from block e (frags_of e.size) 0

-- `enqueue` on the queue at an index of the array
abbrev pub append_at :
    ℕ → List PipeQueueElem → List (List PipeQueueElem) → List (List PipeQueueElem)
append_at n elems [] = []
append_at zero elems (q ∷ qs) = (q ++ elems) ∷ qs
append_at (suc n) elems (q ∷ qs) = q ∷ append_at n elems qs

-- what the thread works on; the addresses belong to the radio's driver
pub record RfTransmitter (Chip : Type 0) : Type 0 where
  pub queues : List (List PipeQueueElem)
  pub so_queue : List SoTransmitterQueueElem
  pub chip : Chip

unfoldable pub start : {Chip : Type 0} → Chip → RfTransmitter Chip
start chip = record { queues = [] ∷ [] ∷ [] ∷ [] ∷ [] ∷ []; so_queue = []; chip = chip }

module _ (d : Device) (uniall : Bool) (fuel : ℕ) (a : Pipes) where
  open d use {Chip, junk}

  -- One payload; `none` while the chip has not signalled within the fuel.
  unfoldable pub send_payload :
      ℕ
      → PipeQueueElem
      → List SoTransmitterQueueElem × Chip
      → Option (List SoTransmitterQueueElem × Chip)
  unfolding complete_error
  send_payload pipe elem (so, ch) = elim (send d fuel a elem.data' pipe ch) [
    | none ↦ none
    | some (observed, ch') ↦
        if leb 15 (observed &&& 0xf)
        then some (so ++ (complete_error uniall error_addr_unreachable elem.tid ∷ []), ch')
        else some (so, ch')
  ]

  -- `while(q->size(q) > 0)`
  unfoldable pub send_queue :
      ℕ
      → List PipeQueueElem
      → List SoTransmitterQueueElem × Chip
      → Option (List SoTransmitterQueueElem × Chip)
  unfolding send_payload
  send_queue pipe [] s = some s
  send_queue pipe (elem ∷ q) s = elim (send_payload pipe elem s) [
    | none ↦ none
    | some t ↦ send_queue pipe q t
  ]

  -- The loop over the queues, from the pipe of the first on.
  unfoldable pub send_queues :
      ℕ
      → List (List PipeQueueElem)
      → List SoTransmitterQueueElem × Chip
      → Option (List SoTransmitterQueueElem × Chip)
  unfolding send_queue
  send_queues pipe [] s = some s
  send_queues pipe (q ∷ qs) s = elim (send_queue pipe q s) [
    | none ↦ none
    | some t ↦ send_queues (suc pipe) qs t
  ]

  -- An element taken from the thread's own queue.
  unfoldable pub on_element : RfTransmitterQueueElem → RfTransmitter Chip → RfTransmitter Chip
  unfolding complete_error fragments
  on_element e s = elim (get_pipe_by_address a e.addr) [
    | none ↦ record s {
      so_queue = s.so_queue ++ (complete_error uniall error_addr_not_defined e.tid ∷ []);
    }
    | some pipe ↦ record s { queues = append_at (pipe - 1) (fragments (junk 32) e) s.queues }
  ]

  -- One round: the queues are emptied, then an element is taken if there is one.
  unfoldable pub round :
      Option RfTransmitterQueueElem → RfTransmitter Chip → Option (RfTransmitter Chip)
  unfolding send_queues on_element
  round next s = elim (send_queues 1 s.queues (s.so_queue, s.chip)) [
    | none ↦ none
    | some (so, ch) ↦
        let sent : RfTransmitter Chip = record {
          queues = [] ∷ [] ∷ [] ∷ [] ∷ [] ∷ [];
          so_queue = so;
          chip = ch;
        } in
        elim next [ none ↦ some sent | some e ↦ some (on_element e sent) ]
  ]

  -- The thread's loop, by what it finds on its own queue at each turn.
  unfoldable pub run :
      List (Option RfTransmitterQueueElem) → RfTransmitter Chip → Option (RfTransmitter Chip)
  unfolding round
  run [] s = some s
  run (next ∷ rest) s = elim (round next s) [ none ↦ none | some t ↦ run rest t ]
