-- ===== src/Rf/Tests.antt =====
-- A bus whose device cannot be opened.
use okto_wsd.Base.{ℕ, ◌<◌, ◌≤◌, ◌≡◌, ◌↔◌, []}
use okto_wsd.Base.Int.{pos, negsuc}
use okto_wsd.Nrf24
use okto_wsd.Nrf24.{Device, initial_pipes}
use okto_wsd.Spi.{SpiDescriptor, Answers, spi_open}
use okto_wsd.Rf.{init}
use okto_wsd.Rf.Bus.{Fails, init-unnoticed}

abbrev nothing_there : Device
nothing_there = record {
  Chip = ℕ;
  transfer = λ bytes c. ([], c);
  set_ce = λ on c. c;
  read_irq_pin = λ c. (0, c);
  junk = λ n. [];
}

abbrev leftover : SpiDescriptor
leftover = record { fd = pos 0; mode = 0; bpw = 0; speed = 0; error = pos 0 }

abbrev refused : Answers
refused = record {
  open_result = negsuc 0;
  mode_result = negsuc 0;
  bits_result = negsuc 0;
  speed_result = negsuc 0;
}

init-unnoticed_example :
    (e : ℕ) × ((spi_open leftover refused 0 8 500000).error ≡ pos e)
    × (e ≤ 4)
    × ((0 < e) ↔ Fails refused)
    × (init nothing_there initial_pipes leftover refused 0
        ≡ (0, Nrf24.init nothing_there initial_pipes 0))
init-unnoticed_example = init-unnoticed leftover refused nothing_there initial_pipes 0
