-- ===== src/RfTransmitter/Straight.antt =====
-- The thread with its five queues, against one that sends a packet as soon as it takes it.
use okto_wsd.Base.{
  ℕ, zero, suc, ◌-◌, ◌≤◌, ◌≡◌, refl, arith, List, [], ◌∷◌, ◌++◌, Bool, Option, none, some, inl, inr,
  Option-cases,
}
use okto_wsd.Elements.{RfTransmitterQueueElem, PipeQueueElem, SoTransmitterQueueElem}
use okto_wsd.Nrf24.{Device, Pipes, get_pipe_by_address}
use okto_wsd.Nrf24.Lookup.{get_pipe_by_address-first}
use okto_wsd.GateIn.Matrix.{error_element}
use okto_wsd.RfTransmitter.{
  RfTransmitter, on_element, append_at, fragments, send_queue, send_queues, round, run,
}
use okto_wsd.RfTransmitter.Route.{complete_error_lem}

abbrev pub no_payloads : List (List PipeQueueElem)
no_payloads = [] ∷ [] ∷ [] ∷ [] ∷ [] ∷ []

-- the packets among what was found
abbrev pub found : List (Option RfTransmitterQueueElem) → List RfTransmitterQueueElem
found [] = []
found (none ∷ rest) = found rest
found (some e ∷ rest) = e ∷ found rest

module _ (d : Device) (uniall : Bool) (fuel : ℕ) (a : Pipes) where
  abbrev pub Sent : Type 0
  Sent = List SoTransmitterQueueElem × d.Chip

  -- A packet is sent at once, over the pipe of its address.
  abbrev pub send_packet : RfTransmitterQueueElem → Sent → Option Sent
  send_packet e (so, ch) = elim (get_pipe_by_address a e.addr) [
    | none ↦ some (so ++ (error_element uniall 1001 e.tid ∷ []), ch)
    | some pipe ↦ send_queue d uniall fuel a pipe (fragments (d.junk 32) e) (so, ch)
  ]

  unfoldable pub send_packets : List RfTransmitterQueueElem → Sent → Option Sent
  send_packets [] s = some s
  send_packets (e ∷ es) s = elim (send_packet e s) [ none ↦ none | some t ↦ send_packets es t ]

  -- the thread with nothing queued
  abbrev pub idle : Sent → RfTransmitter d.Chip
  idle (so, ch) = record { queues = no_payloads; so_queue = so; chip = ch }

  abbrev pub ended : Option Sent → Option (RfTransmitter d.Chip)
  ended none = none
  ended (some s) = some (idle s)

  -- The thread once it has taken a packet, and what it sends with the next round.
  abbrev held : Option RfTransmitterQueueElem → Sent → RfTransmitter d.Chip
  held none s = idle s
  held (some e) s = on_element d uniall fuel a e (idle s)

  abbrev pending : Option RfTransmitterQueueElem → Sent → Option Sent
  pending none s = some s
  pending (some e) s = send_packet e s

  -- One filled queue is sent over its own pipe.
  send_queues-append_at :
      (pipe : ℕ) (q : List PipeQueueElem) (s : Sent)
      → 1 ≤ pipe
      → pipe ≤ 5
      → send_queues d uniall fuel a 1 (append_at (pipe - 1) q no_payloads) s
        ≡ send_queue d uniall fuel a pipe q s
  unfolding send_queues send_queue
  send_queues-append_at zero q s low high = absurd (omega arith)
  send_queues-append_at (suc zero) q s low high = ground arith
  send_queues-append_at (suc (suc zero)) q s low high = ground arith
  send_queues-append_at (suc (suc (suc zero))) q s low high = ground arith
  send_queues-append_at (suc (suc (suc (suc zero)))) q s low high = ground arith
  send_queues-append_at (suc (suc (suc (suc (suc zero))))) q s low high = ground arith
  send_queues-append_at (suc (suc (suc (suc (suc (suc n)))))) q s low high = absurd (omega arith)

  send_queues-held :
      (p : Option RfTransmitterQueueElem) (s : Sent)
      → send_queues d uniall fuel a 1 (held p s).queues ((held p s).so_queue, (held p s).chip)
        ≡ pending p s
  unfolding on_element send_queues send_queue
  send_queues-held none (so, ch) = refl
  send_queues-held (some e) (so, ch) = elim (Option-cases (get_pipe_by_address a e.addr)) [
    | inl nowhere ↦ ground (arith, complete_error_lem uniall 1001 e.tid)
    | inr (pipe, at) ↦
        let f = get_pipe_by_address-first a e.addr pipe at in
        ground (arith, send_queues-append_at pipe (fragments (d.junk 32) e) (so, ch) f.0 f.1)
  ]

  round-held :
      (next p : Option RfTransmitterQueueElem) (s : Sent)
      → round d uniall fuel a next (held p s)
        ≡ elim (pending p s) [ none ↦ none | some t ↦ some (held next t) ]
  unfolding round
  round-held none p s = ground (arith, send_queues-held p s)
  round-held (some e) p s = ground (arith, send_queues-held p s)

  run-held :
      (nexts : List (Option RfTransmitterQueueElem)) (p : Option RfTransmitterQueueElem) (s : Sent)
      → run d uniall fuel a (nexts ++ (none ∷ [])) (held p s)
        ≡ elim (pending p s) [ none ↦ none | some t ↦ ended (send_packets (found nexts) t) ]
  unfolding run send_packets
  run-held [] p s = elim (Option-cases (pending p s)) [
    | inl stuck ↦ ground (arith, round-held none p s)
    | inr (t, eq) ↦ ground (arith, round-held none p s)
  ]
  run-held (none ∷ rest) p s = elim (Option-cases (pending p s)) [
    | inl stuck ↦ ground (arith, round-held none p s)
    | inr (t, eq) ↦ ground (arith, round-held none p s, run-held rest none t)
  ]
  run-held (some e ∷ rest) p s = elim (Option-cases (pending p s)) [
    | inl stuck ↦ ground (arith, round-held (some e) p s)
    | inr (t, eq) ↦ ground (arith, round-held (some e) p s, run-held rest (some e) t)
  ]

  -- Whatever the thread finds on its queue at each turn, empty or not, once it has found nothing
  -- again it has sent the packets in the order in which they came, each whole over the pipe of its
  -- address before the next, and answered a packet with no pipe at its place: the five queues
  -- between change nothing. Neither ends when the chip does not signal within the fuel.
  pub run_lem :
      (nexts : List (Option RfTransmitterQueueElem)) (s : Sent)
      → run d uniall fuel a (nexts ++ (none ∷ [])) (idle s) ≡ ended (send_packets (found nexts) s)
  run_lem nexts s = run-held nexts none s
