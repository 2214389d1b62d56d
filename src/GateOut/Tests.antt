-- ===== src/GateOut/Tests.antt =====
-- The radio side at concrete packets.
use okto_wsd.Base.{ℕ, ◌≡◌, arith, [], ◌∷◌, List, false, length, replicate, length-replicate}
use okto_wsd.Packet.Exb.{ExbPacket, to_binary}
use okto_wsd.Packet.RoundTrip.{IsExb}
use okto_wsd.Ring.{Ring}
use okto_wsd.Ring.Window.{contents}
use okto_wsd.GateOut.{on_bytes, run}
use okto_wsd.GateOut.Limits.{IsSound, hunting, filling, run_stuck}
use okto_wsd.GateOut.Framing.{parsed_of, sent_up, radio_packet}

-- the ring's memory
storage : List ℕ
storage = replicate 256 0

length-storage : length storage ≡ 256
unfolding storage
length-storage = length-replicate {A = ℕ} 256 0

-- the ring as the thread starts: full
abbrev fresh : Ring
fresh = record { buffer = storage; reader = 1; writer = 0; size = 256; overflow_politics = 0 }

fresh-IsSound : IsSound fresh
fresh-IsSound = omega (arith, length-storage)

abbrev beacon : ExbPacket
beacon = record { preamble = 0; tid = 9; type = 3; length = 2; body = 5 ∷ 6 ∷ [] }

beacon-IsExb : IsExb beacon
beacon-IsExb = omega arith

radio_packet_example :
    (r' : Ring) × (on_bytes false 0xffffffff (to_binary beacon).0 (hunting fresh beacon 0)
      ≡ (sent_up false 0xffffffff beacon ∷ [], hunting r' (parsed_of beacon beacon) 2))
    × IsSound r'
    × (contents r' ≡ [])
radio_packet_example =
    radio_packet false 0xffffffff beacon beacon 0 beacon-IsExb (omega arith) (omega arith)
      (omega arith) fresh-IsSound

run_stuck_example :
    (r' : Ring) × (run false
        (record { addr = 1; data' = replicate 32 7 } ∷ [])
        (filling fresh beacon 241)
      ≡ ([], filling r' beacon 241))
    × IsSound r'
run_stuck_example =
    run_stuck false (record { addr = 1; data' = replicate 32 7 } ∷ []) beacon 241 fresh-IsSound
      (omega arith)
