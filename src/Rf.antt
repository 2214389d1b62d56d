-- ===== src/Rf.antt =====
-- rf.c: the set-up of the radio, and the cutting of a packet for the first queue.
pub mod Cut
pub mod Bus
mod Tests
use okto_wsd.Base.{
  ℕ, zero, suc, ◌+◌, ◌*◌, List, [], ◌∷◌, ◌++◌, Bool, true, false, Option, none, some, if◌then◌else◌,
  take, drop,
}
use okto_wsd.Base.Word.{u16}
use okto_wsd.Base.Int.{negative}
use okto_wsd.Spi.{SpiDescriptor, Answers, spi_open}
use okto_wsd.Lbq.{LinkedBlockingQueue, new_lqb}
use okto_wsd.Nrf24
use okto_wsd.Nrf24.{Device, Pipes}
use okto_wsd.RfTransmitter.{frags_of, len_of}

-- The payload at the index `i`, in a block that held `block`.
unfoldable pub payload_at : List ℕ → List ℕ → (size i : ℕ) → List ℕ
payload_at block bytes size i =
    take (len_of size i) (drop (u16 (i * 32)) bytes) ++ drop (len_of size i) block

-- The loop from `i` on, with `left` to go: what goes on the first queue.
unfoldable pub payloads_from : List ℕ → List ℕ → (size left i : ℕ) → List (List ℕ)
unfolding payload_at
payloads_from block bytes size zero i = []
payloads_from block bytes size (suc left) i =
    payload_at block bytes size i ∷ payloads_from block bytes size left (u16 (i + 1))

-- `RF_transmit`: the result and the first queue
unfoldable pub transmit : List ℕ → List ℕ → ℕ → List (List ℕ) → Bool × List (List ℕ)
unfolding payloads_from
transmit block bytes size queue = (true, queue ++ payloads_from block bytes size (frags_of size) 0)

-- The five queues of `RF_init`.
abbrev pub transmit_queues : List LinkedBlockingQueue
transmit_queues = new_lqb 100 ∷ new_lqb 100 ∷ new_lqb 100 ∷ new_lqb 100 ∷ new_lqb 100 ∷ []

-- `RF_init` on the hardware, where opening the bus gets the given answers: the code and the chip.
-- The chip's test is commented out.
unfoldable pub init : (d : Device) → Pipes → SpiDescriptor → Answers → d.Chip → ℕ × d.Chip
unfolding Nrf24.init spi_open
init d a dev answers c =
    let spidev = spi_open dev answers 0 8 500000 in
    if negative spidev.error then (1, c) else (0, Nrf24.init d a c)
