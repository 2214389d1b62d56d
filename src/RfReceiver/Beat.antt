-- ===== src/RfReceiver/Beat.antt =====
-- The payloads that the thread makes up when nothing is received.
use okto_wsd.Base.{
  ℕ, suc, ◌+◌, ◌-◌, ◌*◌, ◌/◌, ◌<◌, ◌≤◌, ◌≡◌, refl, ap, ◌∙◌, arith, List, [], ◌∷◌, false, length,
  replicate, le_cases, inl, inr,
}
use okto_wsd.Nrf24.{Device, Pipes, available}
use okto_wsd.RfReceiver.{Poller, poll, poll_all, make_up, take_payload, reset_silent, test_element}

module _ (d : Device) (a : Pipes) (silent : (ch : d.Chip) → (available d ch).0 ≡ false) where
  take_nothing : (taw : ℕ) (t : ℕ × d.Chip) → (take_payload d a taw t).0 ≡ []
  unfolding take_payload
  take_nothing taw (last, ch) = rw (silent ch) refl

  poll_early :
      (taw : ℕ) (s : Poller d.Chip)
      → s.counter ≤ 5000
      → ((poll d a taw s).0 ≡ []) × ((poll d a taw s).1.counter ≡ s.counter + 10)
  unfolding poll
  poll_early taw s few =
      let idle : make_up s.counter ≡ ([], s.counter) = unfold make_up in ground arith in
      rw (idle, take_nothing taw (reset_silent d a taw (s.last_data_ts, s.chip))) (refl, refl)

  poll_due :
      (taw : ℕ) (s : Poller d.Chip)
      → 5000 < s.counter
      → ((poll d a taw s).0 ≡ test_element ∷ []) × ((poll d a taw s).1.counter ≡ 10)
  unfolding poll
  poll_due taw s many =
      let due : make_up s.counter ≡ (test_element ∷ [], 0) = unfold make_up in ground arith in
      rw (due, take_nothing taw (reset_silent d a taw (s.last_data_ts, s.chip))) (refl, refl)

  -- While the chip receives nothing, a made-up payload from the address 0x11111101 is put on the
  -- queue at the 502nd round from the start and every 501 rounds from there on, and nothing else,
  -- whatever the clock says.
  pub poll_all_silent :
      (taws : List ℕ) (s : Poller d.Chip) (k : ℕ)
      → s.counter ≡ k * 10
      → k ≤ 501
      → (poll_all d a taws s).0 ≡ replicate ((k + length taws - 1) / 501) test_element
  unfolding poll_all
  poll_all_silent [] s k e h =
      ap (λ n. replicate n test_element) {x = 0} {y = (k + 0 - 1) / 501} (omega arith)
  poll_all_silent (taw ∷ taws) s k e h = elim (le_cases k 500) [
    | inl early ↦
        let (nothing, next) = poll_early taw s (omega arith) in
        rw nothing (
          poll_all_silent taws (poll d a taw s).1 (suc k) (omega arith) (omega arith)
          ∙ ap (λ n. replicate n test_element) {x = (suc k + length taws - 1) / 501}
              {y = (k + suc (length taws) - 1) / 501} (omega arith))
    | inr due ↦
        let (made, next) = poll_due taw s (omega arith) in
        rw made (
          ap (λ l. test_element ∷ l)
            (poll_all_silent taws (poll d a taw s).1 1 (omega arith) (omega arith))
          ∙ ap (λ n. replicate n test_element) {x = suc ((1 + length taws - 1) / 501)}
              {y = (k + suc (length taws) - 1) / 501} (omega arith))
  ]
