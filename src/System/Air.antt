-- ===== src/System/Air.antt =====
-- The requests on the radio's queue, from there to the chip.
use okto_wsd.Base.{
  ℕ, ◌+◌, ◌-◌, ◌/◌, ◌<◌, ◌≡◌, refl, ap, sym, ◌∙◌, arith, List, [], ◌∷◌, ◌++◌, Bool, false, Option,
  none, some, take, drop, length, map, length-drop,
}
use mathlib.Core.Path.{fun_ext}
use mathlib.Core.List.{append-nil, append_assoc, map-append}
use okto_wsd.Elements.{RfTransmitterQueueElem, SoTransmitterQueueElem, PipeQueueElem}
use okto_wsd.Itoa.{Sprintf}
use okto_wsd.Map2.{Key}
use okto_wsd.Nrf24.{Device, Pipes, get_pipe_by_address, wait_irq}
use okto_wsd.Packet.Wsd.{WsdPacket}
use okto_wsd.GateIn.Blob.{be_at}
use okto_wsd.RfTransmitter
use okto_wsd.RfTransmitter.{fragments, send_queue}
use okto_wsd.RfTransmitter.Route.{IsPart, part_nil, IsPart-append, send_queue_lem}
use okto_wsd.GateIn.Matrix.{error_element}
use okto_wsd.RfTransmitter.Fragments.{IsCut, payloads, fragments_lem}
use okto_wsd.RfTransmitter.Straight.{Sent, found, send_packet, send_packets, ended, run_lem}
use okto_wsd.System.{System, run}
use okto_wsd.System.Items.{
  Item, accepted, refused, asks, sets, answers, set_by_all, event_of, AllGood, for_radio,
  rf_element,
}
use okto_wsd.System.Steps.{IsReady}
use okto_wsd.System.Exchange.{exchange_lem}

-- Payloads, and the pipe that they go over.
abbrev pub Burst : Type 0
Burst = ℕ × List PipeQueueElem

-- the id of each payload
abbrev pub ids : List Burst → List ℕ
ids [] = []
ids (b ∷ bs) = map (λ q. q.tid) b.1 ++ ids bs

-- The payloads carry the packet behind the address of the request, over the pipe of that address.
pub record Carries (a : Pipes) (p : WsdPacket) (b : Burst) : Type 0 where
  pub to_pipe : get_pipe_by_address a (be_at p.body 0) ≡ some b.0
  pub whole : take (p.length - 4) (payloads b.1) ≡ drop 4 p.body
  pub cut : IsCut (be_at p.body 12) b.1
  pub count : length b.1 ≡ (p.length - 4 + 31) / 32

-- One burst for each request, in order.
abbrev pub AllCarried : Pipes → List Item → List Burst → Type 0
AllCarried a [] [] = Unit
AllCarried a [] (b ∷ bs) = ⊥
AllCarried a (answers addr p padding ∷ items) bs = AllCarried a items bs
AllCarried a (sets socket p v ∷ items) bs = AllCarried a items bs
AllCarried a (asks socket p ∷ items) [] = ⊥
AllCarried a (asks socket p ∷ items) (b ∷ bs) = Carries a p b × AllCarried a items bs

-- Each request to transmit is for an address that one of the pipes has, and no other addresses are
-- set.
abbrev pub AllKnown : Pipes → List Item → Type 0
AllKnown a [] = Unit
AllKnown a (answers addr p padding ∷ items) = AllKnown a items
AllKnown a (sets socket p accepted ∷ items) = ⊥
AllKnown a (sets socket p (refused error) ∷ items) = AllKnown a items
AllKnown a (asks socket p ∷ items) =
    ((pipe : ℕ) × (get_pipe_by_address a (be_at p.body 0) ≡ some pipe)) × AllKnown a items

set_by_all-known : (a : Pipes) (items : List Item) → AllKnown a items → set_by_all items a ≡ a
set_by_all-known a [] known = refl
set_by_all-known a (answers addr p padding ∷ items) known = set_by_all-known a items known
set_by_all-known a (sets socket p accepted ∷ items) known = absurd known
set_by_all-known a (sets socket p (refused error) ∷ items) known = set_by_all-known a items known
set_by_all-known a (asks socket p ∷ items) (at, known) = set_by_all-known a items known

module _ (d : Device) (uniall : Bool) (fuel : ℕ) (a : Pipes) where
  -- one burst after another
  pub send_bursts : List Burst → Sent d uniall fuel a → Option (Sent d uniall fuel a)
  send_bursts [] s = some s
  send_bursts ((pipe, q) ∷ bs) s = elim (send_queue d uniall fuel a pipe q s) [
    | none ↦ none
    | some t ↦ send_bursts bs t
  ]

  -- A burst that is sent whole, with the answers that come of it.
  burst_sent :
      (b : Burst) (so : List SoTransmitterQueueElem) (ch : d.Chip)
      → ((c : d.Chip) → (c' : d.Chip) × (wait_irq d fuel c ≡ some c'))
      → (failed : List ℕ) × (ch' : d.Chip) × (send_queue d uniall fuel a b.0 b.1 (so, ch)
          ≡ some (so ++ map (error_element uniall 1000) failed, ch'))
        × IsPart failed (map (λ q. q.tid) b.1)
  burst_sent (pipe, q) so ch signals = send_queue_lem d uniall fuel a pipe q so ch signals

  bursts_sent :
      (bs : List Burst) (so : List SoTransmitterQueueElem) (ch : d.Chip)
      → ((c : d.Chip) → (c' : d.Chip) × (wait_irq d fuel c ≡ some c'))
      → (failed : List ℕ) × (ch' : d.Chip) × (send_bursts bs (so, ch)
          ≡ some (so ++ map (error_element uniall 1000) failed, ch'))
        × IsPart failed (ids bs)
  unfolding send_bursts
  bursts_sent [] so ch signals = ([], ch, ap (λ l. some (l, ch)) (sym (append-nil so)), part_nil)
  bursts_sent (b ∷ bs) so ch signals =
      let (failed, ch1, first, part) = burst_sent b so ch signals in
      let (more, ch2, rest, parts) =
        bursts_sent bs (so ++ map (error_element uniall 1000) failed) ch1 signals in
      (
        failed ++ more,
        ch2,
        let mine = error_element uniall 1000 in
            ap (λ o. elim o [ none ↦ none | some t ↦ send_bursts bs t ]) first
            ∙ rest
            ∙ ap (λ l. some (l, ch2))
                (append_assoc so (map mine failed) (map mine more)
                  ∙ ap (λ l. so ++ l) (sym (map-append mine failed more))),
        IsPart-append part parts,
      )

  send_packet_known :
      (e : RfTransmitterQueueElem) (pipe : ℕ) (s : Sent d uniall fuel a)
      → get_pipe_by_address a e.addr ≡ some pipe
      → send_packet d uniall fuel a e s
        ≡ send_queue d uniall fuel a pipe (fragments (d.junk 32) e) s
  send_packet_known e pipe (so, ch) at = ground (arith, at)

  -- The packets of requests as bursts.
  bursts_of :
      (items : List Item)
      → length (d.junk 32) ≡ 32
      → AllGood d items
      → AllKnown a items
      → (bs : List Burst) × AllCarried a items bs
        × ((s : Sent d uniall fuel a)
            → send_packets d uniall fuel a (for_radio items) s ≡ send_bursts bs s)
  unfolding send_packets send_bursts
  bursts_of [] room good known = ([], tt, λ s. refl)
  bursts_of (answers addr p padding ∷ items) room (good, rest) known =
      bursts_of items room rest known
  bursts_of (sets socket p accepted ∷ items) room (good, rest) known = absurd known
  bursts_of (sets socket p (refused error) ∷ items) room (good, rest) known =
      bursts_of items room rest known
  bursts_of (asks socket p ∷ items) room (good, rest) ((pipe, at), known) =
      let (bs, carried, same) = bursts_of items room rest known in
      let q = fragments (d.junk 32) (rf_element p) in
      let (count, cut, whole) =
        fragments_lem (d.junk 32) (rf_element p) room
          (omega (arith, good.long, good.wsd.body_there, length-drop 4 p.body))
          (omega (arith, good.wsd.length_fits)) in
      (
        (pipe, q) ∷ bs,
        (record { to_pipe = at; whole = whole; cut = cut; count = count }, carried),
        λ (s : Sent d uniall fuel a).
            ap
              (λ o. elim o [
                | none ↦ none
                | some t ↦ send_packets d uniall fuel a (for_radio items) t
              ])
              (send_packet_known (rf_element p) pipe s at)
            ∙ ap
                (λ (f : Sent d uniall fuel a → Option (Sent d uniall fuel a)).
                  elim (send_queue d uniall fuel a pipe q s) [ none ↦ none | some t ↦ f t ])
                (fun_ext same),
      )

-- Requests to transmit go all the way to the chip. While clients and radios exchange packets as in
-- `exchange_lem`, with every request to transmit for an address that a pipe has and no matrix
-- accepted, the transmitter finds the requests on its queue at whatever turns. On a chip that
-- always signals within the fuel it then has sent one burst of payloads for each, in order, over
-- the pipe of its address. Together the payloads of a burst start with the packet behind the
-- address, and they are as many as it takes. The transmitter's only answers are errors 1000, at
-- most one for each payload, with its id, and it has nothing left.
pub air_lem :
    (d : Device) (c : Sprintf) (uniall : Bool) (junk fuel sent_fuel : ℕ)
    (glob_so_map : List (Key × ℕ)) (items : List Item) (s : System d.Chip) (owner : ℕ → Option ℕ)
    (nexts : List (Option RfTransmitterQueueElem)) (ch : d.Chip)
    → length glob_so_map < fuel
    → AllGood d items
    → IsReady d c junk fuel glob_so_map s owner
    → s.gate_in.rf_queue ≡ []
    → AllKnown s.gate_in.pipes items
    → found nexts ≡ for_radio items
    → length (d.junk 32) ≡ 32
    → ((b : d.Chip) → (b' : d.Chip) × (wait_irq d sent_fuel b ≡ some b'))
    → (s' : System d.Chip) × (bs : List Burst) × (failed : List ℕ) × (ch' : d.Chip) × (run d c false
          junk fuel glob_so_map
          (map event_of items)
          s
        ≡ some s')
      × (found nexts ≡ s'.gate_in.rf_queue)
      × (s'.gate_in.pipes ≡ s.gate_in.pipes)
      × AllCarried s.gate_in.pipes items bs
      × IsPart failed (ids bs)
      × (send_bursts d uniall sent_fuel s.gate_in.pipes bs ([], ch)
          ≡ some (map (error_element uniall 1000) failed, ch'))
      × (RfTransmitter.run d uniall sent_fuel s.gate_in.pipes
            (nexts ++ (none ∷ []))
            (RfTransmitter.start ch)
          ≡ some (record (RfTransmitter.start ch) {
            so_queue = map (error_element uniall 1000) failed;
            chip = ch';
          }))
unfolding RfTransmitter.start
air_lem d c uniall junk fuel sent_fuel glob_so_map items s owner nexts ch enough good ready nothing
      known all_found room signals =
    let (s', ran, written, queued, held) =
      exchange_lem d c junk fuel glob_so_map items s owner enough good ready in
    let (bs, carried, same) = bursts_of d uniall sent_fuel s.gate_in.pipes items room good known in
    let (failed, ch', sent, part) =
      bursts_sent d uniall sent_fuel s.gate_in.pipes bs [] ch signals in
    (
      s',
      bs,
      failed,
      ch',
      ran,
      all_found ∙ sym (queued ∙ ap (λ l. l ++ for_radio items) nothing),
      held ∙ set_by_all-known s.gate_in.pipes items known,
      carried,
      part,
      sent,
      run_lem d uniall sent_fuel s.gate_in.pipes nexts ([], ch)
          ∙ ap
              (λ es.
                ended d uniall sent_fuel s.gate_in.pipes
                  (send_packets d uniall sent_fuel s.gate_in.pipes es ([], ch)))
              all_found
          ∙ ap (ended d uniall sent_fuel s.gate_in.pipes) (same ([], ch) ∙ sent),
    )
