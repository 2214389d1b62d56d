-- ===== src/System.antt =====
-- core.c: the threads that `startDaemon` joins by queues, from the sockets to the radio's queue and
-- from the radio back to the sockets. Each thread has taken everything off its queue before the
-- next bytes come. What is for the radio stays on its queue: the radio transmitter is not among
-- them.
pub mod Items
pub mod Ask
pub mod Answer
pub mod Matrix
pub mod Steps
pub mod Exchange
pub mod Air
pub mod Short
pub mod Any
pub mod Pieces
pub mod Mixed
pub mod Rest
mod Tests
use okto_wsd.Base.{ℕ, List, [], ◌∷◌, ◌++◌, Bool, Option, none, some, if◌then◌else◌, ◌==◌}
use okto_wsd.Elements.{GateInQueueElement, SoTransmitterQueueElem, requests_fit, packets_fit}
use okto_wsd.Itoa.{Sprintf}
use okto_wsd.Map2.{Key}
use okto_wsd.Nrf24.{Device}
use okto_wsd.GateIn
use okto_wsd.GateIn.{GateIn}
use okto_wsd.GateOut.{Assembler, on_bytes}
use okto_wsd.SoReceiver.{Receiver, receive}
use okto_wsd.SoTransmitter.{on_element}

-- Bytes that a client wrote to its socket, or that the chip received from an address.
pub data Event : Type 0 where
  from_client from_radio : ℕ → List ℕ → Event

-- The receiving thread of each socket, the dispatcher with its map of transactions and the queue of
-- the radio, the assembler of radio packets, and all that was written to sockets.
pub record System (Chip : Type 0) : Type 0 where
  pub receivers : ℕ → Receiver
  pub gate_in : GateIn Chip
  pub assembler : Assembler
  pub written : List (ℕ × List ℕ)

abbrev pub set_receiver : ℕ → Receiver → (ℕ → Receiver) → ℕ → Receiver
set_receiver socket r old other = if other == socket then r else old other

module _ (d : Device) (c : Sprintf) (uniall : Bool) (junk fuel : ℕ)
    (glob_so_map : List (Key × ℕ)) where
  open d use {Chip}

  -- `SoTransmitter_thread` on all that is on its queue
  unfoldable pub deliver : List (Key × ℕ) → List SoTransmitterQueueElem → Option (List (ℕ × List ℕ))
  deliver tid_so_map [] = some []
  deliver tid_so_map (e ∷ es) = elim (on_element c junk fuel tid_so_map glob_so_map e) [
    | none ↦ none
    | some ws ↦ elim (deliver tid_so_map es) [ none ↦ none | some rest ↦ some (ws ++ rest) ]
  ]

  -- The dispatcher, and what its answers become.
  unfoldable pub dispatch_all :
      ℕ → List GateInQueueElement → Receiver → System Chip → Option (System Chip)
  unfolding deliver
  dispatch_all socket elems rcv s = elim (GateIn.run d c uniall elems s.gate_in) [
    | none ↦ none
    | some g ↦ elim (deliver g.tid_so_map g.so_queue) [
      | none ↦ none
      | some ws ↦ some (record {
        receivers = set_receiver socket rcv s.receivers;
        gate_in = record g { so_queue = [] };
        assembler = s.assembler;
        written = s.written ++ ws;
      })
    ]
  ]

  unfoldable pub pass_all :
      List SoTransmitterQueueElem → Assembler → System Chip → Option (System Chip)
  unfolding deliver
  pass_all elems assembler s = elim (deliver s.gate_in.tid_so_map elems) [
    | none ↦ none
    | some ws ↦ some (record s { assembler = assembler; written = s.written ++ ws })
  ]

  -- It is a fault to write behind a block that `malloc` gave.
  unfoldable pub step : Event → System Chip → Option (System Chip)
  unfolding dispatch_all pass_all
  step (from_client socket bytes) s =
      let (elems, rcv) = receive socket bytes (s.receivers socket) in
      if requests_fit elems then dispatch_all socket elems rcv s else none
  step (from_radio addr bytes) s =
      let (elems, assembler) = on_bytes uniall addr bytes s.assembler in
      if packets_fit elems then pass_all elems assembler s else none

  unfoldable pub run : List Event → System Chip → Option (System Chip)
  unfolding step
  run [] s = some s
  run (e ∷ es) s = elim (step e s) [ none ↦ none | some t ↦ run es t ]
