-- ===== src/Rf/Cut.antt =====
-- `RF_transmit` cuts a packet as the radio transmitter does.
use okto_wsd.Base.{ℕ, zero, suc, ◌+◌, ◌%◌, ◌^◌, ◌≡◌, refl, ap, List, ◌∷◌, ◌++◌, true, map}
use okto_wsd.Elements.{RfTransmitterQueueElem}
use okto_wsd.RfTransmitter.{frags_of, fragments, fragments_from, fragment}
use okto_wsd.Rf.{payload_at, payloads_from, transmit}

module _ (block : List ℕ) (e : RfTransmitterQueueElem) where
  payloads_from_lem :
      (left i : ℕ)
      → payloads_from block e.data' e.size left i
        ≡ map (λ p. p.data') (fragments_from block e left i)
  unfolding payloads_from fragments_from payload_at fragment
  payloads_from_lem zero i = refl
  payloads_from_lem (suc left) i =
      ap (λ l. payload_at block e.data' e.size i ∷ l) (payloads_from_lem left ((i + 1) % 2 ^ 16))

  -- The bytes that RF_transmit puts behind what is on the first queue are, payload for payload,
  -- those that RfTransmitter_thread puts on the queue of a pipe for an element with the same bytes
  -- and size. It always returns true.
  pub transmit-fragments :
      (queue : List (List ℕ))
      → transmit block e.data' e.size queue
        ≡ (true, queue ++ map (λ p. p.data') (fragments block e))
  unfolding transmit fragments
  transmit-fragments queue = ap (λ l. (true, queue ++ l)) (payloads_from_lem (frags_of e.size) 0)
