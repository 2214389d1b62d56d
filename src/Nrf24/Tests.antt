-- ===== src/Nrf24/Tests.antt =====
-- The table as it stands at the start, a chip whose STATUS names the fourth pipe, and one that
-- keeps what is written to it.
use okto_wsd.Base.{
  ℕ, ◌+◌, ◌-◌, ◌/◌, ◌%◌, ◌<◌, ◌≡◌, ◌∙◌, ap, refl, arith, List, [], ◌∷◌, if◌then◌else◌, ◌==◌, ltb,
  get_or, take,
}
use okto_wsd.Base.Word.{◌|||◌}
use okto_wsd.Base.Bits.{bit_or_disjoint_low}
use okto_wsd.Nrf24.Reg
use okto_wsd.Nrf24.{
  Device, Pipes, initial_pipes, get_addr_by_pipe, receive, read_reg, write_reg, write_buf, flush_rx,
  flush_tx, init, w_register,
}
use okto_wsd.Nrf24.Lookup.{receive_addr}
use okto_wsd.Nrf24.Init.{Settings, bits, settled, set_up, init_lem}

abbrev table : Pipes
table = record initial_pipes { p2_targ = 7; p4_targ = 7 }

abbrev fourth : Device
fourth = record {
  Chip = ℕ;
  transfer = λ bytes c. (0 ∷ 0x48 ∷ [], c + 1);
  set_ce = λ on c. c;
  read_irq_pin = λ c. (0, c);
  junk = λ n. [];
}

receive_addr_example :
    (receive fourth table 0).1 ≡ get_addr_by_pipe table ((read_reg fourth Reg.status 0).0 / 2 % 8)
receive_addr_example = receive_addr fourth table 0

abbrev answer : List ℕ → (ℕ → ℕ) → List ℕ × (ℕ → ℕ)
answer [] c = ([], c)
answer (cmd ∷ bytes) c =
    if ltb cmd 0x20
    then (0 ∷ c cmd ∷ [], c)
    else if ltb cmd 0x40
    then (0 ∷ [], λ k. if k == cmd - 0x20 then get_or bytes 0 0 else c k)
    else (0 ∷ [], c)

-- A byte for each register, read below 0x20 and written from there on.
abbrev byte_each : Device
byte_each = record {
  Chip = ℕ → ℕ;
  transfer = answer;
  set_ce = λ on c. c;
  read_irq_pin = λ c. (0, c);
  junk = λ n. [];
}

write_command : (addr : ℕ) → addr < 32 → (addr ||| w_register) ≡ addr + 32
write_command addr h = bit_or_disjoint_low 5 1 addr (omega arith) ∙ omega arith

answer_write :
    (j k : ℕ) (bytes : List ℕ) (c : ℕ → ℕ)
    → j < 32
    → (answer ((j ||| w_register) ∷ bytes) c).1 k ≡ (if k == j then get_or bytes 0 0 else c k)
answer_write j k bytes c h =
    ap (λ cmd. (answer (cmd ∷ bytes) c).1 k) (write_command j h) ∙ ground arith

settable-low : (k : ℕ) → 0 < bits k → k < 32
settable-low k h = ground arith

byte_each-Settings : Settings byte_each
byte_each-Settings = record {
  value = λ k c. c k;
  write_value = λ k dt c settable small.
      unfold write_reg in answer_write k k (dt ∷ []) c (settable-low k settable) ∙ ground arith;
  write_keeps = λ k j dt c settable ne low.
      unfold write_reg in answer_write j k (dt ∷ []) c low ∙ ground arith;
  read_value = λ k c settable. let low = settable-low k settable in unfold read_reg in ground arith;
  read_keeps = λ k j c settable low. unfold read_reg in ground arith;
  address_keeps = λ k n bytes c settable.
      unfold write_buf in answer_write 11 k (take n bytes) c (omega arith) ∙ ground arith;
  flush_rx_keeps = λ k c settable. unfold flush_rx in refl;
  flush_tx_keeps = λ k c settable. unfold flush_tx in refl;
  ce_keeps = λ k on c settable. refl;
}

init_lem_example :
    byte_each-Settings.value Reg.config (init byte_each initial_pipes (λ k. 0))
    ≡ settled Reg.config set_up (byte_each-Settings.value Reg.config (λ k. 0))
init_lem_example =
    init_lem byte_each byte_each-Settings initial_pipes Reg.config (λ k. 0) (omega arith)
