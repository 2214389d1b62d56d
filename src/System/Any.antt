-- ===== src/System/Any.antt =====
-- The threads together on any bytes at all, from clients and from radios.
use okto_wsd.Base.{
  ℕ, ◌<◌, ◌≤◌, ◌≡◌, ◌⊎◌, inl, inr, refl, ap, ◌∙◌, ◌==◌, arith, List, [], ◌∷◌, ◌++◌, Bool, some,
  length, map, Option-cases, Bool-cases,
}
use okto_wsd.Elements.{GateInQueueElement, SoTransmitterQueueElem}
use okto_wsd.Itoa.{Sprintf, itoa2}
use okto_wsd.Map2
use okto_wsd.Map2.{Key}
use okto_wsd.Nrf24.{Device}
use okto_wsd.Packet.Wsd.{wsd_type_transmit, to_binary}
use okto_wsd.SoReceiver.{Receiver, receive}
use okto_wsd.SoReceiver.Sound.{IsSound}
use okto_wsd.SoReceiver.Any.{AllWhole, receive-IsSound}
use okto_wsd.SoReceiver.Blocks.{IsInTime, receive-AllWithin}
use okto_wsd.GateOut.Blocks.{IsInTime as IsOutInTime, on_bytes-AllWithin}
use okto_wsd.GateIn
use okto_wsd.GateIn.{GateIn, on_transmit}
use okto_wsd.GateOut.{on_bytes}
use okto_wsd.GateOut.Limits.{IsSound as IsOutSound}
use okto_wsd.GateOut.Any.{on_bytes-IsSound}
use okto_wsd.SoTransmitter.{on_element, packet_of, write_to}
use okto_wsd.Map2.Iterator.{iterator_new}
use okto_wsd.SoTransmitter.Broadcast.{write_all_lem}
use okto_wsd.System.Short.{IsShort, HasShort, HasEmpty, requests_fit-or_short, packets_fit-or_empty}
use okto_wsd.System.{
  Event, from_client, from_radio, System, set_receiver, deliver, dispatch_all, pass_all, step, run,
}

-- The rings of all the threads are valid, and of their sizes, and hold no more than a packet that is
-- awaited.
pub record IsSafe {Chip : Type 0} (s : System Chip) : Type 0 where
  pub receivers : (socket : ℕ) → IsSound (s.receivers socket).in_buf
  pub assembler : IsOutSound s.assembler.in_buf
  pub requests : (socket : ℕ) → IsInTime (s.receivers socket)
  pub packets : IsOutInTime s.assembler

module _ (d : Device) (c : Sprintf) (uniall : Bool) (junk fuel : ℕ) (glob_so_map : List (Key × ℕ))
    (enough : length glob_so_map < fuel) where
  element_total :
      (m : List (Key × ℕ)) (e : SoTransmitterQueueElem)
      → (ws : List (ℕ × List ℕ)) × (on_element c junk fuel m glob_so_map e ≡ some ws)
  unfolding on_element iterator_new
  element_total m e = elim (Bool-cases e.uniall) [
    | inl all ↦ (
      map (λ item. write_to item.1 (to_binary (packet_of junk e))) glob_so_map,
      rw all (write_all_lem fuel (to_binary (packet_of junk e)) glob_so_map _ enough),
    )
    | inr one ↦ elim (Option-cases (Map2.get (itoa2 c e.tid) m)) [
      | inl nobody ↦ ([], rw (one, nobody) refl)
      | inr (socket, somebody) ↦
          (write_to socket (to_binary (packet_of junk e)) ∷ [], rw (one, somebody) refl)
    ]
  ]

  deliver_total :
      (m : List (Key × ℕ)) (es : List SoTransmitterQueueElem)
      → (ws : List (ℕ × List ℕ)) × (deliver d c uniall junk fuel glob_so_map m es ≡ some ws)
  unfolding deliver
  deliver_total m [] = ([], refl)
  deliver_total m (e ∷ es) =
      let (ws, first) = element_total m e in
      let (rest, others) = deliver_total m es in (ws ++ rest, ground arith)

  gate_in_total :
      (e : GateInQueueElement) (g : GateIn d.Chip)
      → e.size ≤ length e.data'
      → ((g' : GateIn d.Chip) × (freed : Bool) × (GateIn.on_element d c uniall e g
            ≡ some (g', freed)))
        ⊎ IsShort e
  unfolding GateIn.on_element on_transmit
  gate_in_total e g whole = elim (Option-cases (GateIn.on_element d c uniall e g)) [
    | inr ((g', freed), done) ↦ inl (g', freed, done)
    | inl fault ↦
        let short : (e.action ≡ wsd_type_transmit) × (e.size < 16) = ground arith in inr (inr short)
  ]

  gate_in_run_total :
      (es : List GateInQueueElement) (g : GateIn d.Chip)
      → AllWhole es
      → ((g' : GateIn d.Chip) × (GateIn.run d c uniall es g ≡ some g')) ⊎ HasShort es
  unfolding GateIn.run
  gate_in_run_total [] g whole = inl (g, refl)
  gate_in_run_total (e ∷ es) g (whole, rest) = elim (gate_in_total e g whole) [
    | inr short ↦ inr (inl short)
    | inl (g1, freed, done) ↦ elim (gate_in_run_total es g1 rest) [
      | inr short ↦ inr (inr short)
      | inl (g2, ran) ↦ inl (g2, ground arith)
    ]
  ]

  -- One event: a client's request is short, or a radio's packet is empty.
  abbrev pub ShortIn : Event → System d.Chip → Type 0
  ShortIn (from_client socket bytes) s = HasShort (receive socket bytes (s.receivers socket)).0
  ShortIn (from_radio addr bytes) s = HasEmpty (on_bytes uniall addr bytes s.assembler).0

  set_receiver-IsInTime :
      (socket : ℕ) (r : Receiver) (old : ℕ → Receiver)
      → IsInTime r
      → ((k : ℕ) → IsInTime (old k))
      → (k : ℕ) → IsInTime (set_receiver socket r old k)
  set_receiver-IsInTime socket r old new rest k = elim (Bool-cases (k == socket)) [
    | inl same ↦ rw same new
    | inr other ↦ rw other (rest k)
  ]

  set_receiver-IsSound :
      (socket : ℕ) (r : Receiver) (old : ℕ → Receiver)
      → IsSound r.in_buf
      → ((k : ℕ) → IsSound (old k).in_buf)
      → (k : ℕ) → IsSound (set_receiver socket r old k).in_buf
  set_receiver-IsSound socket r old new rest k = elim (Bool-cases (k == socket)) [
    | inl same ↦ rw same new
    | inr other ↦ rw other (rest k)
  ]

  dispatch_all_total :
      (socket : ℕ) (es : List GateInQueueElement) (rcv : Receiver) (s : System d.Chip)
      → AllWhole es
      → IsSound rcv.in_buf
      → IsInTime rcv
      → IsSafe s
      → ((t : System d.Chip) × (dispatch_all d c uniall junk fuel glob_so_map socket es rcv s
            ≡ some t)
          × IsSafe t)
        ⊎ HasShort es
  unfolding dispatch_all
  dispatch_all_total socket es rcv s whole sound time safe =
      elim (gate_in_run_total es s.gate_in whole) [
        | inr short ↦ inr short
        | inl (g, ran) ↦
            let (ws, sent) = deliver_total g.tid_so_map g.so_queue in
            inl (
              record {
                receivers = set_receiver socket rcv s.receivers;
                gate_in = record g { so_queue = [] };
                assembler = s.assembler;
                written = s.written ++ ws;
              },
              ground (arith, ran, sent),
              record {
                receivers = set_receiver-IsSound socket rcv s.receivers sound safe.receivers;
                assembler = safe.assembler;
                requests = set_receiver-IsInTime socket rcv s.receivers time safe.requests;
                packets = safe.packets;
              },
            )
      ]

  step_total :
      (e : Event) (s : System d.Chip)
      → IsSafe s
      → ((t : System d.Chip) × (step d c uniall junk fuel glob_so_map e s ≡ some t) × IsSafe t)
        ⊎ ShortIn e s
  unfolding step pass_all
  step_total (from_client socket bytes) s safe =
      let (whole, sound) =
        receive-IsSound socket bytes (s.receivers socket) (safe.receivers socket) in
      let (within, time) =
        receive-AllWithin socket bytes (s.receivers socket) (safe.receivers socket)
          (safe.requests socket) in
      let (elems, rcv) = receive socket bytes (s.receivers socket) in
      elim (requests_fit-or_short elems within) [
        | inr short ↦ inr short
        | inl fits ↦ rw fits (dispatch_all_total socket elems rcv s whole sound time safe)
      ]
  step_total (from_radio addr bytes) s safe =
      let (elems, a) = on_bytes uniall addr bytes s.assembler in
      let (within, time) =
        on_bytes-AllWithin uniall addr bytes s.assembler safe.assembler safe.packets in
      let (ws, sent) = deliver_total s.gate_in.tid_so_map elems in
      elim (packets_fit-or_empty elems within) [
        | inr empty ↦ inr empty
        | inl fits ↦ inl (
          record s { assembler = a; written = s.written ++ ws },
          ground (arith, sent, fits),
          record {
            receivers = safe.receivers;
            assembler = on_bytes-IsSound uniall addr bytes s.assembler safe.assembler;
            requests = safe.requests;
            packets = time;
          },
        )
      ]

  run_cons :
      (e : Event) (es : List Event) (s t : System d.Chip)
      → step d c uniall junk fuel glob_so_map e s ≡ some t
      → run d c uniall junk fuel glob_so_map (e ∷ es) s ≡ run d c uniall junk fuel glob_so_map es t
  unfolding run
  run_cons e es s t h = ground arith

  pub run_total :
      (es : List Event) (s : System d.Chip)
      → IsSafe s
      → ((t : System d.Chip) × (run d c uniall junk fuel glob_so_map es s ≡ some t) × IsSafe t)
        ⊎ ((before after : List Event) × (e : Event) × (t : System d.Chip) × (es
              ≡ before ++ (e ∷ after))
            × (run d c uniall junk fuel glob_so_map before s ≡ some t)
            × IsSafe t
            × ShortIn e t)
  unfolding run
  run_total [] s safe = inl (s, refl, safe)
  run_total (e ∷ es) s safe = elim (step_total e s safe) [
    | inr short ↦ inr ([], es, e, s, refl, refl, safe, short)
    | inl (t, stepped, safe') ↦ elim (run_total es t safe') [
      | inl (u, ran, safe'') ↦ inl (u, run_cons e es s t stepped ∙ ran, safe'')
      | inr (before, after, e', u, split, ran, safe'', short) ↦ inr (
        e ∷ before,
        after,
        e',
        u,
        ap (λ l. e ∷ l) split,
        run_cons e before s t stepped ∙ ran,
        safe'',
        short,
      )
    ]
  ]
