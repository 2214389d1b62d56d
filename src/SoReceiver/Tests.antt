-- ===== src/SoReceiver/Tests.antt =====
-- The receiving thread at concrete packets.
use okto_wsd.Base.{ℕ, ◌≡◌, refl, arith, [], ◌∷◌, List, length, replicate, length-replicate}
use okto_wsd.Packet.Wsd.{WsdPacket, to_binary}
use okto_wsd.Packet.RoundTrip.{IsWsd}
use okto_wsd.Ring.{Ring, data_length}
use okto_wsd.Ring.Window.{contents}
use okto_wsd.SoReceiver.{receive, ring_buffer_size}
use okto_wsd.SoReceiver.Sound.{IsSound, hunting, filling}
use okto_wsd.SoReceiver.Framing.{
  CanHunt-empty, element_of, parsed_of, receive_packet, receive_empty_body, receive-stream, stream,
}
use okto_wsd.SoReceiver.Stuck.{receive_stuck}
use okto_wsd.Itoa.{itoa2, decimal}
use okto_wsd.SoReceiver.Registration.{register, register_all, unregister, unregister_lem}

-- the memory of the ring, and the ring before the loop
storage : List ℕ
storage = replicate ring_buffer_size 0

length-storage : length storage ≡ ring_buffer_size
unfolding storage
length-storage = length-replicate {A = ℕ} ring_buffer_size 0

abbrev fresh : Ring
fresh = record {
  buffer = storage;
  reader = 0;
  writer = 0;
  size = ring_buffer_size;
  overflow_politics = 0;
}

fresh-IsSound : IsSound fresh
fresh-IsSound = omega (arith, length-storage)

fresh_empty : contents fresh ≡ []
unfolding data_length
fresh_empty = refl

abbrev sample : WsdPacket
sample = record { preamble = 0; tid = 12; type = 0; length = 2; body = 7 ∷ 8 ∷ [] }

abbrev hollow : WsdPacket
hollow = record sample { length = 0; body = [] }

sample-IsWsd : IsWsd sample
sample-IsWsd = omega arith

receive_packet_example :
    (r' : Ring) × (receive 5 (to_binary sample).0 (hunting fresh hollow 0)
      ≡ (element_of 5 sample ∷ [], hunting r' (parsed_of hollow sample) 2))
    × IsSound r'
    × (contents r' ≡ [])
receive_packet_example =
    receive_packet 5 hollow 0 sample sample-IsWsd (omega arith) (omega arith)
      (CanHunt-empty fresh-IsSound fresh_empty)

receive-stream_example :
    (r' : Ring) × (q' : WsdPacket) × (n' : ℕ) × (receive 5
        (stream (sample ∷ sample ∷ []))
        (hunting fresh hollow 0)
      ≡ (element_of 5 sample ∷ element_of 5 sample ∷ [], hunting r' q' n'))
    × IsSound r'
    × (contents r' ≡ [])
receive-stream_example =
    receive-stream 5 (sample ∷ sample ∷ []) hollow 0 fresh-IsSound fresh_empty (omega arith)

receive_empty_body_example :
    (r1 r2 : Ring) × (receive 5 (to_binary hollow).0 (hunting fresh hollow 0)
      ≡ ([], filling r1 (parsed_of hollow hollow) 0))
    × (receive 5 (9 ∷ []) (filling r1 (parsed_of hollow hollow) 0) ≡ (
      record (element_of 5 hollow) { size = 0; data' = 9 ∷ [] } ∷ [],
      hunting r2 (parsed_of hollow hollow) 0,
    ))
receive_empty_body_example =
    receive_empty_body 5 hollow 0 hollow 9 (omega arith) refl
      (CanHunt-empty fresh-IsSound fresh_empty)

receive_stuck_example :
    (r' : Ring) × (receive 5 (1 ∷ 2 ∷ []) (filling fresh sample 65535)
      ≡ ([], filling r' sample 65535))
    × IsSound r'
receive_stuck_example = receive_stuck 5 sample 65535 (1 ∷ 2 ∷ []) fresh-IsSound (omega arith)

unregister_lem_example :
    unregister decimal 5
      (register_all decimal (7 ∷ 6 ∷ []) (register decimal 5 ((itoa2 decimal 5, 5) ∷ [])))
    ≡ register_all decimal (7 ∷ 6 ∷ []) ((itoa2 decimal 5, 5) ∷ [])
unregister_lem_example =
    unregister_lem decimal 5 (7 ∷ 6 ∷ []) ((itoa2 decimal 5, 5) ∷ []) (omega arith) (omega arith)
      (omega arith)
