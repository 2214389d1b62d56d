-- ===== src/RfReceiver/Tests.antt =====
-- A chip whose FIFO is empty for ever.
use okto_wsd.Base.{ℕ, ◌*◌, ◌≡◌, refl, arith, [], ◌∷◌, false}
use okto_wsd.Nrf24.{Device, initial_pipes, available, read_reg}
use okto_wsd.RfReceiver.{poll_all, test_element}
use okto_wsd.RfReceiver.Beat.{poll_all_silent}

abbrev quiet : Device
quiet = record {
  Chip = ℕ;
  transfer = λ bytes c. (0 ∷ 1 ∷ [], c);
  set_ce = λ on c. c;
  read_irq_pin = λ c. (0, c);
  junk = λ n. 0 ∷ [];
}

quiet_silent : (c : ℕ) → (available quiet c).0 ≡ false
unfolding available read_reg
quiet_silent c = refl

poll_all_silent_example :
    (poll_all quiet initial_pipes
      (8 ∷ 9 ∷ [])
      (record { counter = 501 * 10; last_data_ts = 0; chip = 0 })).0
    ≡ test_element ∷ []
poll_all_silent_example =
    poll_all_silent quiet initial_pipes quiet_silent (8 ∷ 9 ∷ [])
      (record { counter = 501 * 10; last_data_ts = 0; chip = 0 }) 501 refl (omega arith)
