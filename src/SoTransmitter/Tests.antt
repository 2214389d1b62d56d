-- ===== src/SoTransmitter/Tests.antt =====
-- Two clients that use the same id, one after the other.
use okto_wsd.Base.{ℕ, ◌≡◌, refl, arith, List, [], ◌∷◌, true, false, some}
use okto_wsd.Elements.{GateInQueueElement, SoTransmitterQueueElem}
use okto_wsd.Itoa.{itoa2, decimal}
use okto_wsd.Nrf24.{Device, initial_pipes}
use okto_wsd.Packet.Wsd.{to_binary}
use okto_wsd.Packet.RoundTrip.{IsWsd}
use okto_wsd.GateIn
use okto_wsd.GateIn.{GateIn}
use okto_wsd.SoTransmitter.{packet_of, on_element}
use okto_wsd.SoTransmitter.Broadcast.{broadcast_lem}
use okto_wsd.SoTransmitter.Reply.{reply_lem}

abbrev absent : Device
absent = record {
  Chip = ℕ;
  transfer = λ bytes c. ([], c);
  set_ce = λ on c. c;
  read_irq_pin = λ c. (0, c);
  junk = λ n. 0 ∷ [];
}

abbrev event : SoTransmitterQueueElem
event = record { tid = 77; type = 1; uniall = true; size = 2; data' = 5 ∷ 6 ∷ [] }

event-IsWsd : IsWsd (packet_of 0 event)
event-IsWsd = omega arith

abbrev request_of : ℕ → ℕ → GateInQueueElement
request_of socket tid = record { socket = socket; tid = tid; action = 9; size = 0; data' = [] }

abbrev requests : List GateInQueueElement
requests = request_of 4 77 ∷ request_of 6 77 ∷ request_of 8 78 ∷ []

abbrev idle : GateIn ℕ
idle = record { tid_so_map = []; pipes = initial_pipes; rf_queue = []; so_queue = []; chip = 0 }

abbrev after : GateIn ℕ
after = record idle {
  tid_so_map = (itoa2 decimal 78, 8) ∷ (itoa2 decimal 77, 6) ∷ (itoa2 decimal 77, 4) ∷ [];
}

requests_ran : GateIn.run absent decimal false requests idle ≡ some after
unfolding GateIn.run GateIn.on_element
requests_ran = refl

reply_lem_example :
    on_element decimal 0 0 after.tid_so_map [] (record event { uniall = false })
    ≡ some ((6, (to_binary (packet_of 0 event)).0) ∷ [])
reply_lem_example =
    reply_lem decimal absent false requests idle after 0 0 [] (record event { uniall = false }) refl
      (omega arith) requests_ran refl event-IsWsd (omega arith)

broadcast_lem_example :
    on_element decimal 0 3 [] ((52 ∷ [], 4) ∷ (54 ∷ [], 6) ∷ []) event
    ≡ some ((4, (to_binary (packet_of 0 event)).0) ∷ (6, (to_binary (packet_of 0 event)).0) ∷ [])
broadcast_lem_example =
    broadcast_lem decimal 0 3 [] ((52 ∷ [], 4) ∷ (54 ∷ [], 6) ∷ []) event refl event-IsWsd
      (omega arith) (omega arith)
