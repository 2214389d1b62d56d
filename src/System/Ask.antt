-- ===== src/System/Ask.antt =====
-- A request on its way from the client's socket to the queue of the radio.
use okto_wsd.Base.{
  ℕ, ◌^◌, ◌<◌, ◌≡◌, refl, ap, ◌∙◌, arith, List, [], ◌∷◌, ◌++◌, false, ◌&&◌, Option, some,
  if◌then◌else◌, ◌==◌, ltb, inl, inr, Bool-cases,
}
use okto_wsd.Elements.{GateInQueueElement}
use okto_wsd.Itoa.{Sprintf, itoa2}
use okto_wsd.Map2
use okto_wsd.Map2.{Key}
use okto_wsd.Nrf24.{Device}
use okto_wsd.Packet.Wsd
use okto_wsd.Packet.Wsd.{WsdPacket, wsd_type_transmit, wsd_type_receive}
use okto_wsd.Packet.RoundTrip.{IsWsd}
use okto_wsd.SoReceiver.{Receiver, receive, ring_buffer_size}
use okto_wsd.SoReceiver.Sound.{hunting}
use okto_wsd.SoReceiver.Framing.{element_of, receive_packet, CanHunt-empty, parsed_of}
use okto_wsd.GateIn
use okto_wsd.GateIn.{GateIn, store_tid}
use okto_wsd.GateIn.Transmit.{transmit_lem}
use okto_wsd.SoTransmitter.Reply.{get-store_tid}
use okto_wsd.System.{System, set_receiver, deliver, dispatch_all}
use okto_wsd.System.Items.{asks, IsAsk, asked, IsIdle, skewed_id, request, rf_element}

module _ (d : Device) (c : Sprintf) (junk fuel : ℕ) (glob_so_map : List (Key × ℕ)) where
  -- A request through the receiving thread.
  pub receive_request :
      (socket : ℕ) (p : WsdPacket) (rcv : Receiver)
      → IsWsd p
      → 0 < p.length
      → p.length < ring_buffer_size
      → IsIdle rcv
      → (rcv' : Receiver) × (receive socket (Wsd.to_binary p).0 rcv
          ≡ (element_of socket p ∷ [], rcv'))
        × IsIdle rcv'
  receive_request socket p rcv good some_body short idle =
      let (r', ran, sound, empty) =
        receive_packet socket rcv.packet rcv.sbody p good some_body short
          (CanHunt-empty idle.sound idle.empty) in
      (
        hunting r' (parsed_of rcv.packet p) p.length,
        ap
              (λ m.
                receive socket (Wsd.to_binary p).0 (record {
                  in_buf = rcv.in_buf;
                  mode = m;
                  packet = rcv.packet;
                  sbody = rcv.sbody;
                }))
              idle.between
            ∙ ran,
        record { between = refl; sound = sound; empty = empty },
      )

  pub set_receiver-idle :
      (socket : ℕ) (rcv : Receiver) (receivers : ℕ → Receiver)
      → IsIdle rcv
      → ((k : ℕ) → IsIdle (receivers k))
      → (k : ℕ) → IsIdle (set_receiver socket rcv receivers k)
  set_receiver-idle socket rcv receivers new old k = elim (Bool-cases (k == socket)) [
    | inl same ↦ rw same new
    | inr other ↦ rw other (old k)
  ]

  run_ask :
      (socket : ℕ) (p : WsdPacket) (g : GateIn d.Chip)
      → IsAsk p
      → GateIn.run d c false (element_of socket p ∷ []) g
        ≡ some (record (store_tid c (request socket p) g) {
          rf_queue = g.rf_queue ++ (rf_element p ∷ []);
        })
  unfolding GateIn.run
  run_ask socket p g good =
      let done =
        transmit_lem d c false (request socket p) g good.transmits good.wsd.body_there good.long
          good.wsd.length_fits good.bytes in
      rw (skewed_id p.tid good.tid_small) (ground (arith, done))

  pub known_ask :
      (socket : ℕ) (p : WsdPacket) (g : GateIn d.Chip) (owner : ℕ → Option ℕ) (tid : ℕ)
      → IsWsd p
      → tid < 2 ^ 32
      → Map2.get (itoa2 c tid) g.tid_so_map ≡ owner tid
      → Map2.get (itoa2 c tid) (store_tid c (request socket p) g).tid_so_map
        ≡ asked (asks socket p) owner tid
  known_ask socket p g owner tid good small k =
      get-store_tid c tid (request socket p) g small good.tid_fits
      ∙ ap (λ o. if ltb 0 p.tid && (p.tid == tid) then some socket else o) k

  pub store_tid-so_queue :
      (e : GateInQueueElement) (g : GateIn d.Chip) → (store_tid c e g).so_queue ≡ g.so_queue
  unfolding store_tid
  store_tid-so_queue e g = ground arith

  pub store_tid-pipes :
      (e : GateInQueueElement) (g : GateIn d.Chip) → (store_tid c e g).pipes ≡ g.pipes
  unfolding store_tid
  store_tid-pipes e g = ground arith

  -- The dispatcher's state behind a request.
  abbrev pub after_ask : ℕ → WsdPacket → GateIn d.Chip → GateIn d.Chip
  after_ask socket p g = record (store_tid c (request socket p) g) {
    rf_queue = g.rf_queue ++ (rf_element p ∷ []);
  }

  abbrev pub system_after : ℕ → WsdPacket → Receiver → System d.Chip → System d.Chip
  system_after socket p rcv s = record {
    receivers = set_receiver socket rcv s.receivers;
    gate_in = record (after_ask socket p s.gate_in) { so_queue = [] };
    assembler = s.assembler;
    written = s.written ++ [];
  }

  pub dispatch_ask :
      (socket : ℕ) (p : WsdPacket) (rcv : Receiver) (s : System d.Chip)
      → IsAsk p
      → s.gate_in.so_queue ≡ []
      → dispatch_all d c false junk fuel glob_so_map socket (element_of socket p ∷ []) rcv s
        ≡ some (system_after socket p rcv s)
  unfolding dispatch_all deliver
  dispatch_ask socket p rcv s good quiet =
      let none_left : (after_ask socket p s.gate_in).so_queue ≡ [] =
        store_tid-so_queue (request socket p) s.gate_in ∙ quiet in
      ground (arith, run_ask socket p s.gate_in good, none_left)
