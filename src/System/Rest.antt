-- ===== src/System/Rest.antt =====
-- The system with nothing to do, two clients registered, and what a client and a radio may send, for
-- the tests.
use okto_wsd.Base.{ℕ, ◌≡◌, refl, arith, List, [], ◌∷◌, none, replicate, length, length-replicate}
use okto_wsd.Itoa.{decimal}
use okto_wsd.Map2
use okto_wsd.Map2.{Key}
use okto_wsd.Nrf24.{initial_pipes}
use okto_wsd.Packet.Wsd.{WsdPacket}
use okto_wsd.Packet.Exb.{ExbPacket}
use okto_wsd.Ring.{Ring, data_length}
use okto_wsd.Ring.Window.{contents}
use okto_wsd.SoReceiver.{ring_buffer_size}
use okto_wsd.SoReceiver.Sound.{hunting}
use okto_wsd.GateOut.Limits.{hunting as out_hunting}
use okto_wsd.System.{System}
use okto_wsd.System.Steps.{IsReady}
use okto_wsd.System.Any.{IsSafe}
use okto_wsd.GateIn.Keeping.{keeping}

pub zeros : ℕ → List ℕ
zeros n = replicate n 0

length-zeros : (n : ℕ) → length (zeros n) ≡ n
unfolding zeros
length-zeros n = length-replicate {A = ℕ} n 0

abbrev pub empty_ring : ℕ → Ring
empty_ring n = record { buffer = zeros n; reader = 0; writer = 0; size = n; overflow_politics = 0 }

empty_ring_lem : (n : ℕ) → contents (empty_ring n) ≡ []
unfolding data_length
empty_ring_lem n = refl

abbrev pub ask : ℕ → WsdPacket
ask tid = record {
  preamble = 0;
  tid = tid;
  type = 0;
  length = 16;
  body = 0 ∷ 0 ∷ 0 ∷ 7 ∷ 1 ∷ 2 ∷ 3 ∷ 4 ∷ 5 ∷ 6 ∷ 7 ∷ 8 ∷ 0 ∷ 0 ∷ 0 ∷ 9 ∷ [];
}

abbrev pub reply : ℕ → ℕ → ExbPacket
reply tid type = record { preamble = 0; tid = tid; type = type; length = 2; body = 5 ∷ 6 ∷ [] }

abbrev pub at_rest : System (ℕ → List ℕ)
at_rest = record {
  receivers = λ socket. hunting (empty_ring ring_buffer_size) (ask 0) 0;
  gate_in = record {
    tid_so_map = [];
    pipes = record initial_pipes { p2_targ = 7 };
    rf_queue = [];
    so_queue = [];
    chip = λ k. [];
  };
  assembler = out_hunting (record (empty_ring 256) { reader = 1 }) (reply 0 0) 0;
  written = [];
}

abbrev pub sockets : List (Key × ℕ)
sockets = (52 ∷ [], 4) ∷ (54 ∷ [], 6) ∷ []

pub at_rest-IsReady : IsReady keeping decimal 0 3 sockets at_rest (λ tid. none)
unfolding Map2.get
at_rest-IsReady = record {
  idle = λ socket. record {
    between = refl;
    sound = omega (arith, length-zeros ring_buffer_size);
    empty = empty_ring_lem ring_buffer_size;
  };
  waiting = record { between = refl; sound = omega (arith, length-zeros 256) };
  quiet = refl;
  known = λ tid small. refl;
}

pub at_rest-IsSafe : IsSafe at_rest
at_rest-IsSafe = record {
  receivers = λ socket. omega (arith, length-zeros ring_buffer_size);
  assembler = omega (arith, length-zeros 256);
  requests = λ socket is_body. ground arith;
  packets = (λ is_header. ground arith, λ is_body. ground arith);
}
