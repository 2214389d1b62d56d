-- ===== src/RfReceiver.antt =====
-- rf_receiver.c: the thread that polls the chip for payloads.
pub mod Beat
mod Tests
use okto_wsd.Base.{
  ℕ, zero, suc, ◌+◌, ◌-◌, List, [], ◌∷◌, ◌++◌, Bool, true, false, if◌then◌else◌, ltb,
}
use okto_wsd.Elements.{GateOutQueueElement}
use okto_wsd.Nrf24.{Device, Pipes, available, receive, init}

abbrev pub max_silence_time : ℕ
max_silence_time = 90000

-- The payload `p` that the thread makes up.
abbrev pub test_payload : List ℕ
test_payload =
    0x3b ∷ 0xaa ∷ 0xaa ∷ 0xaa ∷ 0xaa ∷ 0xaa ∷ 0xaa ∷ 0xaa ∷ 0x00 ∷ 0x00 ∷ 0x00 ∷ 0x01 ∷ 0x06 ∷ 0x00
    ∷ 0x00 ∷ 0x00 ∷ 0x00 ∷ 0x00 ∷ 0x01 ∷ 0x61 ∷ 0x62 ∷ 0x63 ∷ 0x2d ∷ 0x2d ∷ 0x2d ∷ 0x2d ∷ 0x0a
    ∷ 0x00 ∷ 0x00 ∷ 0x00 ∷ 0x00 ∷ 0x00 ∷ []

abbrev pub test_element : GateOutQueueElement
test_element = record { addr = 0x11111101; data' = test_payload }

-- The variables of the thread's loop.
pub record Poller (Chip : Type 0) : Type 0 where
  pub counter : ℕ
  pub last_data_ts : ℕ
  pub chip : Chip

-- The first `if` of the loop: the element it makes up, and the counter.
unfoldable pub make_up : ℕ → List GateOutQueueElement × ℕ
make_up counter = if ltb 5000 counter then (test_element ∷ [], 0) else ([], counter)

module _ (d : Device) (a : Pipes) where
  open d use {Chip}

  -- The reset of a chip that has been silent, at the time `taw`; the difference of times is
  -- negative, and so no more than the limit, where it is 0 here.
  unfoldable pub reset_silent : ℕ → ℕ × Chip → ℕ × Chip
  reset_silent taw (last, ch) =
      if ltb max_silence_time (taw - last) then (taw, init d a ch) else (last, ch)

  -- What the chip has received.
  unfoldable pub take_payload : ℕ → ℕ × Chip → List GateOutQueueElement × (ℕ × Chip)
  take_payload taw (last, ch) =
      let (ready, ch1) = available d ch in
      let (payload, addr, ch2) = receive d a ch1 in
      if ready
      then (record { addr = addr; data' = payload } ∷ [], (taw, ch2))
      else ([], (last, ch1))

  -- One round of the loop.
  unfoldable pub poll : ℕ → Poller Chip → List GateOutQueueElement × Poller Chip
  unfolding make_up reset_silent take_payload
  poll taw s =
      let (made, counter) = make_up s.counter in
      let (taken, (last, ch)) = take_payload taw (reset_silent taw (s.last_data_ts, s.chip)) in
      (made ++ taken, record { counter = counter + 10; last_data_ts = last; chip = ch })

  -- The loop, over the times of its rounds.
  unfoldable pub poll_all : List ℕ → Poller Chip → List GateOutQueueElement × Poller Chip
  unfolding poll
  poll_all [] s = ([], s)
  poll_all (taw ∷ taws) s =
      let (out, s') = poll taw s in let (rest, s'') = poll_all taws s' in (out ++ rest, s'')
