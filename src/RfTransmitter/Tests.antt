-- ===== src/RfTransmitter/Tests.antt =====
-- A packet of 40 bytes, sent over a chip that always signals and counts the given retransmissions.
use okto_wsd.Base.{ℕ, ◌≡◌, refl, arith, [], ◌∷◌, false, none, some, length, take, replicate}
use okto_wsd.Elements.{RfTransmitterQueueElem}
use okto_wsd.Nrf24.{Device, initial_pipes, wait_irq}
use okto_wsd.RfTransmitter.{fragments, run}
use okto_wsd.RfTransmitter.Straight.{idle, ended, send_packets, run_lem}
use okto_wsd.RfTransmitter.Fragments.{IsCut, payloads, fragments_lem}

abbrev lossy : Device
lossy = record {
  Chip = ℕ;
  transfer = λ bytes c. (0 ∷ 15 ∷ [], c);
  set_ce = λ on c. c;
  read_irq_pin = λ c. (0, c);
  junk = λ n. replicate n 0;
}

abbrev packet : RfTransmitterQueueElem
packet = record { addr = 0xffffffff; tid = 0x10007; size = 40; data' = replicate 40 3 }

lossy_signals : (c : ℕ) → (c' : ℕ) × (wait_irq lossy 1 c ≡ some c')
unfolding wait_irq
lossy_signals c = (c, refl)

fragments_lem_example :
    (length (fragments (replicate 32 0) packet) ≡ 2)
    × IsCut 0x10007 (fragments (replicate 32 0) packet)
    × (take 40 (payloads (fragments (replicate 32 0) packet)) ≡ replicate 40 3)
fragments_lem_example = fragments_lem (replicate 32 0) packet refl refl (omega arith)

run_lem_example :
    run lossy false 1 initial_pipes
      (none ∷ some packet ∷ some (record packet { addr = 5 }) ∷ none ∷ [])
      (idle lossy false 1 initial_pipes ([], 0))
    ≡ ended lossy false 1 initial_pipes (
        send_packets lossy false 1 initial_pipes (packet ∷ record packet { addr = 5 } ∷ []) ([], 0))
run_lem_example =
    run_lem lossy false 1 initial_pipes
      (none ∷ some packet ∷ some (record packet { addr = 5 }) ∷ []) ([], 0)
