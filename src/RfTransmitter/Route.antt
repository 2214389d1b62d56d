-- ===== src/RfTransmitter/Route.antt =====
-- Which way a packet goes, and what is said to the client when it does not arrive.
use okto_wsd.Base.{
  compare_cases, ℕ, ◌-◌, ◌%◌, ◌^◌, ◌<◌, ◌≤◌, ◌≡◌, ◌≢◌, refl, ap, ◌∙◌, arith, List, [], ◌∷◌, ◌++◌,
  Bool, some, leb, if◌then◌else◌, Option-cases, le_cases, sym, inl, inr, map,
}
use okto_wsd.Base.Bits.{bit_and_15}
use mathlib.Core.List.{append-nil, append_assoc}
use okto_wsd.Elements.{RfTransmitterQueueElem, PipeQueueElem, SoTransmitterQueueElem}
use okto_wsd.Nrf24.{
  Device, Pipes, get_pipe_by_address, get_addr_by_pipe, send, wait_irq, send_start, send_end,
}
use okto_wsd.Nrf24.Lookup.{get_pipe_by_address-first, get_pipe_by_address-found}
use okto_wsd.GateIn.Blob.{error_bytes}
use okto_wsd.GateIn.Matrix.{error_element}
use okto_wsd.RfTransmitter.{
  RfTransmitter, complete_error, on_element, append_at, fragments, send_payload, send_queue,
}

-- The list is another one with some elements left out.
pub data IsPart : List ℕ → List ℕ → Type 0 where
  part_nil : IsPart [] []
  part_keep : {x : ℕ} {xs ys : List ℕ} → IsPart xs ys → IsPart (x ∷ xs) (x ∷ ys)
  part_skip : {x : ℕ} {xs ys : List ℕ} → IsPart xs ys → IsPart xs (x ∷ ys)

pub IsPart-append :
    {xs ys us vs : List ℕ} → IsPart xs ys → IsPart us vs → IsPart (xs ++ us) (ys ++ vs)
IsPart-append part_nil q = q
IsPart-append (part_keep p) q = part_keep (IsPart-append p q)
IsPart-append (part_skip p) q = part_skip (IsPart-append p q)

pub complete_error_lem :
    (uniall : Bool) (error tid : ℕ)
    → error < 2 ^ 16
    → complete_error uniall error tid ≡ error_element uniall error tid
unfolding complete_error
complete_error_lem uniall error tid h = rw (error_bytes error h) refl

module _ (d : Device) (uniall : Bool) (fuel : ℕ) (a : Pipes) where
  -- A packet for an address that none of the five pipes has is answered with error 1001 and the
  -- id of the packet; nothing else changes.
  unknown_address :
      (e : RfTransmitterQueueElem) (s : RfTransmitter d.Chip)
      → ((k : ℕ) → 1 ≤ k → k ≤ 5 → get_addr_by_pipe a k ≢ e.addr)
      → on_element d uniall fuel a e s
        ≡ record s { so_queue = s.so_queue ++ (error_element uniall 1001 e.tid ∷ []) }
  unfolding on_element
  unknown_address e s absent = elim (Option-cases (get_pipe_by_address a e.addr)) [
    | inl nowhere ↦ ground (arith, complete_error_lem uniall 1001 e.tid)
    | inr (pipe, at) ↦
        let f = get_pipe_by_address-first a e.addr pipe at in absurd (absent pipe f.0 f.1 f.2)
  ]

  -- A packet for the address of a pipe goes, in payloads, to the end of the queue of the first pipe
  -- with that address; nothing else changes.
  known_address :
      (e : RfTransmitterQueueElem) (s : RfTransmitter d.Chip) (k : ℕ)
      → 1 ≤ k
      → k ≤ 5
      → get_addr_by_pipe a k ≡ e.addr
      → ((j : ℕ) → 1 ≤ j → j < k → get_addr_by_pipe a j ≢ e.addr)
      → on_element d uniall fuel a e s
        ≡ record s { queues = append_at (k - 1) (fragments (d.junk 32) e) s.queues }
  unfolding on_element
  known_address e s k low high at first = elim (Option-cases (get_pipe_by_address a e.addr)) [
    | inl nowhere ↦ absurd (get_pipe_by_address-found a e.addr k low high at nowhere)
    | inr (pipe, found) ↦
        let f = get_pipe_by_address-first a e.addr pipe found in
        let same : pipe ≡ k = elim (compare_cases pipe k) [
          | inl below ↦ absurd (first pipe f.0 below f.2)
          | inr (inl eq) ↦ eq
          | inr (inr above) ↦ absurd (f.3 k low above at)
        ] in
        ground arith
  ]

  send_payload_lem :
      (pipe : ℕ) (p : PipeQueueElem) (so : List SoTransmitterQueueElem) (ch ch' : d.Chip)
      (observed : ℕ)
      → send d fuel a p.data' pipe ch ≡ some (observed, ch')
      → send_payload d uniall fuel a pipe p (so, ch)
        ≡ some (
          (if leb 15 (observed % 16) then so ++ (error_element uniall 1000 p.tid ∷ []) else so),
          ch',
        )
  unfolding send_payload
  send_payload_lem pipe p so ch ch' observed sent =
      ground (arith, bit_and_15 observed, complete_error_lem uniall 1000 p.tid)

  send_total :
      (bytes : List ℕ) (pipe : ℕ) (ch : d.Chip)
      → ((c : d.Chip) → (c' : d.Chip) × (wait_irq d fuel c ≡ some c'))
      → (observed : ℕ) × (ch' : d.Chip) × (send d fuel a bytes pipe ch ≡ some (observed, ch'))
  unfolding send
  send_total bytes pipe ch signals =
      let (c', eq) = signals (send_start d a bytes pipe ch) in
      ((send_end d a c').0, (send_end d a c').1, ground (arith, eq))

  send_queue_cons :
      (pipe : ℕ) (p : PipeQueueElem) (q : List PipeQueueElem)
      (s t : List SoTransmitterQueueElem × d.Chip)
      → send_payload d uniall fuel a pipe p s ≡ some t
      → send_queue d uniall fuel a pipe (p ∷ q) s ≡ send_queue d uniall fuel a pipe q t
  unfolding send_queue
  send_queue_cons pipe p q s t h = ground arith

  -- On a chip that always signals within the fuel, the payloads of a queue are all sent. At most one
  -- answer is given for each, in their order: error 1000 with the id that the payload has.
  pub send_queue_lem :
      (pipe : ℕ) (q : List PipeQueueElem) (so : List SoTransmitterQueueElem) (ch : d.Chip)
      → ((c : d.Chip) → (c' : d.Chip) × (wait_irq d fuel c ≡ some c'))
      → (failed : List ℕ) × (ch' : d.Chip) × (send_queue d uniall fuel a pipe q (so, ch)
          ≡ some (so ++ map (error_element uniall 1000) failed, ch'))
        × IsPart failed (map (λ p. p.tid) q)
  send_queue_lem pipe [] so ch signals =
      ([], ch, unfold send_queue in ap (λ l. some (l, ch)) (sym (append-nil so)), part_nil)
  send_queue_lem pipe (p ∷ q) so ch signals =
      let (observed, ch1, sent) = send_total p.data' pipe ch signals in
      let first = send_payload_lem pipe p so ch ch1 observed sent in
      elim (le_cases 15 (observed % 16)) [
        | inl lost ↦
            let (failed, ch', eq, part) =
              send_queue_lem pipe q (so ++ (error_element uniall 1000 p.tid ∷ [])) ch1 signals in
            (
              p.tid ∷ failed,
              ch',
              send_queue_cons pipe p q (so, ch) (so ++ (error_element uniall 1000 p.tid ∷ []), ch1)
                    (first ∙ ground arith)
                  ∙ eq
                  ∙ ap (λ l. some (l, ch'))
                      (append_assoc so (error_element uniall 1000 p.tid ∷ [])
                        (map (error_element uniall 1000) failed)),
              part_keep part,
            )
        | inr arrived ↦
            let (failed, ch', eq, part) = send_queue_lem pipe q so ch1 signals in
            (
              failed,
              ch',
              send_queue_cons pipe p q (so, ch) (so, ch1) (first ∙ ground arith) ∙ eq,
              part_skip part,
            )
      ]
