-- ===== src/System/Tests.antt =====
-- Two clients, three packets from the radio, and a chip that keeps its registers.
use okto_wsd.Base.{
  ℕ, ◌<◌, ◌≡◌, refl, arith, List, [], ◌∷◌, ◌++◌, false, true, Option, none, some, length, take, inl,
  map,
}
use okto_wsd.Itoa.{decimal}
use okto_wsd.Nrf24.{get_pipe_by_address, wait_irq}
use okto_wsd.Packet.Wsd
use okto_wsd.Packet.Wsd.{WsdPacket}
use okto_wsd.Packet.Exb.{ExbPacket}
use okto_wsd.Ring.Search.{quiet}
use okto_wsd.System.{Event, from_client, from_radio, System, run}
use okto_wsd.System.Items.{
  Item, Verdict, accepted, refused, asks, sets, answers, reply_of, event_of, IsAsk, IsAnswer,
  AllGood, answer_packet, rf_element,
}
use okto_wsd.System.Rest.{ask, reply, at_rest, sockets, at_rest-IsReady}
use okto_wsd.System.Exchange.{exchange_lem}
use okto_wsd.GateIn.Keeping.{keeping, keeping-Registers, blob, blob-IsDistinct, all_small-IsBytes}
use okto_wsd.GateIn.Distinct.{matrix}
use okto_wsd.SoTransmitter.{packet_of}
use okto_wsd.System.Air.{Burst, ids, AllCarried, send_bursts, air_lem}
use okto_wsd.Elements.{RfTransmitterQueueElem}
use okto_wsd.GateIn.Matrix.{error_element}
use okto_wsd.RfTransmitter
use okto_wsd.RfTransmitter.Route.{IsPart}
use okto_wsd.RfTransmitter.Straight.{found}

-- to 32 bytes, with the front of a preamble at the end
abbrev padding : List ℕ
padding =
    0xaa ∷ 0xaa ∷ 0xaa ∷ 0xaa ∷ 0xaa ∷ 0xaa ∷ 0xaa ∷ 0xaa ∷ 0x3b ∷ 0xaa ∷ 0xaa ∷ 0xaa ∷ 0xaa ∷ 0xaa
    ∷ 0xaa ∷ []

-- a request to set the addresses, with a body of so many bytes
abbrev set : ℕ → ℕ → WsdPacket
set tid n = record { preamble = 0; tid = tid; type = 3; length = n; body = take n blob }

abbrev verdicts : List Item
verdicts = sets 6 (set 20 40) accepted ∷ sets 4 (set 21 3) (refused 1002) ∷ []

abbrev items : List Item
items =
    answers 1 (reply 12 2) padding
    ∷ asks 4 (ask 12)
    ∷ asks 6 (ask 13)
    ∷ answers 1 (reply 12 2) padding
    ∷ answers 2 (reply 99 3) padding
    ∷ []

ask-IsAsk : (tid : ℕ) → tid < 16777216 → IsAsk (ask tid)
ask-IsAsk tid h = record {
  wsd = omega arith;
  transmits = refl;
  long = omega arith;
  short = omega arith;
  tid_small = omega arith;
  bytes = λ i. ground arith;
}

reply-IsAnswer : (tid type : ℕ) → tid < 16777216 → 1 < type → type < 4 → IsAnswer (reply tid type)
reply-IsAnswer tid type h k l = omega arith

padded_reply :
    (tid type : ℕ)
    → tid < 16777216
    → 1 < type
    → type < 4
    → IsAnswer (reply tid type) × (length padding < 32) × (quiet 0x3b [] padding ≡ true)
padded_reply tid type h k l = (reply-IsAnswer tid type h k l, omega arith, refl)

abbrev block : ℕ → ℕ → ExbPacket → ℕ × List ℕ
block socket addr p = (socket, (Wsd.to_binary (answer_packet 0 addr p)).0)

items-AllGood : AllGood keeping items
items-AllGood = (
  padded_reply 12 2 (omega arith) (omega arith) (omega arith),
  (
    ask-IsAsk 12 (omega arith),
    (
      ask-IsAsk 13 (omega arith),
      (
        padded_reply 12 2 (omega arith) (omega arith) (omega arith),
        (padded_reply 99 3 (omega arith) (omega arith) (omega arith), tt),
      ),
    ),
  ),
)

verdicts-AllGood : AllGood keeping verdicts
verdicts-AllGood = (
  (
    record {
      wsd = omega arith;
      sets_matrix = refl;
      some_body = omega arith;
      short = omega arith;
      tid_small = omega arith;
      bytes = all_small-IsBytes blob refl;
    },
    omega arith,
    blob-IsDistinct,
    keeping-Registers,
    refl,
  ),
  (
    (
      record {
        wsd = omega arith;
        sets_matrix = refl;
        some_body = omega arith;
        short = omega arith;
        tid_small = omega arith;
        bytes = all_small-IsBytes (take 3 blob) refl;
      },
      inl (omega arith, refl),
    ),
    tt,
  ),
)

abbrev reply_block : ℕ → ℕ → Verdict → ℕ × List ℕ
reply_block socket tid v = (socket, (Wsd.to_binary (packet_of 0 (reply_of (0 ∷ []) tid v))).0)

exchange_lem_example :
    (s' : System (ℕ → List ℕ)) × (run keeping decimal false 0 3 sockets
        (map event_of (verdicts ++ items))
        at_rest
      ≡ some s')
    × (s'.written
        ≡ reply_block 6 20 accepted
          ∷ reply_block 4 21 (refused 1002)
          ∷ block 4 1 (reply 12 2)
          ∷ block 4 2 (reply 99 3)
          ∷ block 6 2 (reply 99 3)
          ∷ [])
    × (s'.gate_in.rf_queue ≡ rf_element (ask 12) ∷ rf_element (ask 13) ∷ [])
    × (s'.gate_in.pipes ≡ matrix blob)
exchange_lem_example =
    exchange_lem keeping decimal 0 3 sockets (verdicts ++ items) at_rest (λ tid. none) (omega arith)
      (verdicts-AllGood.0, (verdicts-AllGood.1.0, items-AllGood)) at_rest-IsReady

to_second : get_pipe_by_address at_rest.gate_in.pipes 7 ≡ some 2
unfolding get_pipe_by_address
to_second = refl

signals : (ch : ℕ → List ℕ) → (ch' : ℕ → List ℕ) × (wait_irq keeping 1 ch ≡ some ch')
unfolding wait_irq
signals ch = (ch, refl)

-- what the transmitter finds at its turns
abbrev turns : List (Option RfTransmitterQueueElem)
turns = none ∷ some (rf_element (ask 12)) ∷ none ∷ none ∷ some (rf_element (ask 13)) ∷ []

air_lem_example :
    (s' : System (ℕ → List ℕ)) × (bs : List Burst) × (failed : List ℕ) × (ch' : ℕ → List ℕ) × (run
        keeping decimal false 0 3 sockets
        (map event_of items)
        at_rest
      ≡ some s')
    × (found turns ≡ s'.gate_in.rf_queue)
    × (s'.gate_in.pipes ≡ at_rest.gate_in.pipes)
    × AllCarried at_rest.gate_in.pipes items bs
    × IsPart failed (ids bs)
    × (send_bursts keeping true 1 at_rest.gate_in.pipes bs ([], λ k. [])
        ≡ some (map (error_element true 1000) failed, ch'))
    × (RfTransmitter.run keeping true 1 at_rest.gate_in.pipes
          (turns ++ (none ∷ []))
          (RfTransmitter.start (λ k. []))
        ≡ some (record (RfTransmitter.start {Chip = ℕ → List ℕ} (λ k. [])) {
          so_queue = map (error_element true 1000) failed;
          chip = ch';
        }))
air_lem_example =
    air_lem keeping decimal true 0 3 1 sockets items at_rest (λ tid. none) turns (λ k. [])
      (omega arith) items-AllGood at_rest-IsReady refl ((2, to_second), ((2, to_second), tt)) refl
      refl signals

-- A piece of a request, noise from a radio, and noise from another client.
abbrev noise : List Event
noise =
    from_client 4 (take 9 (Wsd.to_binary (ask 12)).0)
    ∷ from_radio 7 (0x3b ∷ 0xaa ∷ 0 ∷ [])
    ∷ from_client 6 (1 ∷ 2 ∷ 3 ∷ [])
    ∷ []
