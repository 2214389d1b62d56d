-- ===== src/System/Steps.antt =====
-- One request, or one packet from the radio, through all the threads.
use okto_wsd.Base.{
  ℕ, ◌^◌, ◌<◌, ◌≡◌, refl, ap, ◌∙◌, arith, List, [], ◌∷◌, ◌++◌, false, true, Bool, Option, none,
  some, if◌then◌else◌, length, length-append,
}
use mathlib.Core.List.{append-nil}
use okto_wsd.Elements.{GateInQueueElement, SoTransmitterQueueElem, requests_fit, packets_fit}
use okto_wsd.Base.Endian.{be_bytes}
use okto_wsd.Packet.Exb
use okto_wsd.Packet.RoundTrip.{IsWsd, exb_size}
use okto_wsd.SoReceiver.Framing.{element_of}
use okto_wsd.Itoa.{Sprintf, itoa2}
use okto_wsd.Map2
use okto_wsd.Map2.{Key}
use okto_wsd.Nrf24.{Device}
use okto_wsd.Packet.Wsd.{WsdPacket}
use okto_wsd.Packet.Exb.{ExbPacket}
use okto_wsd.SoReceiver.{Receiver}
use okto_wsd.Ring.Search.{quiet}
use okto_wsd.GateOut.{Assembler}
use okto_wsd.System.{System, dispatch_all, pass_all, step}
use okto_wsd.System.Ask.{
  receive_request, set_receiver-idle, known_ask, store_tid-pipes, system_after, dispatch_ask,
}
use okto_wsd.System.Answer.{deliver-answer, assemble_answer}
use okto_wsd.System.Matrix.{after_set, system_set, set_of, reply_writes, dispatch_set}
use okto_wsd.System.Items.{
  Verdict, sets, set_by, IsGood, request, asks, answers, event_of, IsAsk, IsAnswer, asked, writes,
  IsIdle, IsWaiting, rf_element, answer,
}

if_fits :
    {A : Type 0} {b : Bool} {x : Option A} {y : A}
    → b ≡ true
    → x ≡ some y
    → (if b then x else none) ≡ some y
if_fits fits h = rw fits h

request_fits :
    (socket : ℕ) (p : WsdPacket) → IsWsd p → requests_fit (element_of socket p ∷ []) ≡ true
request_fits socket p good = ground (arith, good.body_there)

packet_fits : (addr : ℕ) (p : ExbPacket) → IsAnswer p → packets_fit (answer addr p ∷ []) ≡ true
packet_fits addr p good =
    let long = length-append (be_bytes addr) (Exb.to_binary p).0 in
    ground (arith, (exb_size p good.exb).0, long)

module _ (d : Device) (c : Sprintf) (junk fuel : ℕ) (glob_so_map : List (Key × ℕ)) where
  -- Every thread waits, nothing is left on the queue to the sockets, and the ids lead to their
  -- owners.
  pub record IsReady (s : System d.Chip) (owner : ℕ → Option ℕ) : Type 0 where
    pub idle : (socket : ℕ) → IsIdle (s.receivers socket)
    pub waiting : IsWaiting s.assembler
    pub quiet : s.gate_in.so_queue ≡ []
    pub known : (tid : ℕ) → tid < 2 ^ 32 → Map2.get (itoa2 c tid) s.gate_in.tid_so_map ≡ owner tid

  pub step_ask :
      (socket : ℕ) (p : WsdPacket) (s : System d.Chip) (owner : ℕ → Option ℕ)
      → IsAsk p
      → IsReady s owner
      → (s' : System d.Chip) × (step d c false junk fuel glob_so_map (event_of (asks socket p)) s
          ≡ some s')
        × IsReady s' (asked (asks socket p) owner)
        × (s'.written ≡ s.written)
        × (s'.gate_in.rf_queue ≡ s.gate_in.rf_queue ++ (rf_element p ∷ []))
        × (s'.gate_in.pipes ≡ s.gate_in.pipes)
  unfolding step
  step_ask socket p s owner good ready =
      let (rcv, ran, idle) =
        receive_request d c junk fuel glob_so_map socket p (s.receivers socket) good.wsd
          (omega (arith, good.long)) good.short (ready.idle socket) in
      (
        system_after d c junk fuel glob_so_map socket p rcv s,
        ap
              (λ (t : List GateInQueueElement × Receiver).
                if requests_fit t.0
                then dispatch_all d c false junk fuel glob_so_map socket t.0 t.1 s
                else none)
              ran
            ∙ if_fits (request_fits socket p good.wsd)
                (dispatch_ask d c junk fuel glob_so_map socket p rcv s good ready.quiet),
        record {
          idle = set_receiver-idle d c junk fuel glob_so_map socket rcv s.receivers idle ready.idle;
          waiting = ready.waiting;
          quiet = refl;
          known = λ tid small.
              known_ask d c junk fuel glob_so_map socket p s.gate_in owner tid good.wsd small
                (ready.known tid small);
        },
        append-nil s.written,
        refl,
        store_tid-pipes d c junk fuel glob_so_map (request socket p) s.gate_in,
      )

  pub step_set :
      (socket : ℕ) (p : WsdPacket) (v : Verdict) (s : System d.Chip) (owner : ℕ → Option ℕ)
      → IsGood d (sets socket p v)
      → IsReady s owner
      → (s' : System d.Chip) × (step d c false junk fuel glob_so_map (event_of (sets socket p v)) s
          ≡ some s')
        × IsReady s' (asked (sets socket p v) owner)
        × (s'.written
            ≡ s.written
              ++ reply_writes d c junk fuel glob_so_map p v (asked (sets socket p v) owner p.tid))
        × (s'.gate_in.rf_queue ≡ s.gate_in.rf_queue)
        × (s'.gate_in.pipes ≡ set_by (sets socket p v) s.gate_in.pipes)
  unfolding step
  step_set socket p v s owner good ready =
      let q = set_of d c junk fuel glob_so_map socket p v good in
      let (rcv, ran, idle) =
        receive_request d c junk fuel glob_so_map socket p (s.receivers socket) q.wsd q.some_body
          q.short (ready.idle socket) in
      let m = (after_set d c junk fuel glob_so_map socket p v s.gate_in).tid_so_map in
      let known = λ (tid : ℕ) (small : tid < 2 ^ 32).
        known_ask d c junk fuel glob_so_map socket p s.gate_in owner tid q.wsd small
          (ready.known tid small) in
      (
        system_set d c junk fuel glob_so_map socket p v rcv
            (reply_writes d c junk fuel glob_so_map p v (Map2.get (itoa2 c p.tid) m)) s,
        ap
              (λ (t : List GateInQueueElement × Receiver).
                if requests_fit t.0
                then dispatch_all d c false junk fuel glob_so_map socket t.0 t.1 s
                else none)
              ran
            ∙ if_fits (request_fits socket p q.wsd)
                (dispatch_set d c junk fuel glob_so_map socket p v rcv s good ready.quiet),
        record {
          idle = set_receiver-idle d c junk fuel glob_so_map socket rcv s.receivers idle ready.idle;
          waiting = ready.waiting;
          quiet = refl;
          known = known;
        },
        ap (λ o. s.written ++ reply_writes d c junk fuel glob_so_map p v o)
            (known p.tid q.wsd.tid_fits),
        refl,
        refl,
      )

  pub step_answer :
      (addr : ℕ) (p : ExbPacket) (padding : List ℕ) (s : System d.Chip) (owner : ℕ → Option ℕ)
      → IsAnswer p
      → length padding < 32
      → quiet 0x3b [] padding ≡ true
      → length glob_so_map < fuel
      → IsReady s owner
      → (s' : System d.Chip) × (step d c false junk fuel glob_so_map
            (event_of (answers addr p padding))
            s
          ≡ some s')
        × IsReady s' owner
        × (s'.written ≡ s.written ++ writes junk glob_so_map addr p (owner p.tid))
        × (s'.gate_in.rf_queue ≡ s.gate_in.rf_queue)
        × (s'.gate_in.pipes ≡ s.gate_in.pipes)
  unfolding step pass_all
  step_answer addr p padding s owner good few still enough ready =
      let (a', ran, waits) =
        assemble_answer d c junk fuel glob_so_map addr p padding s.assembler good few still
          ready.waiting in
      let m = s.gate_in.tid_so_map in
      let ws = writes junk glob_so_map addr p (Map2.get (itoa2 c p.tid) m) in
      (
        record s { assembler = a'; written = s.written ++ ws },
        ap
              (λ (t : List SoTransmitterQueueElem × Assembler).
                if packets_fit t.0
                then pass_all d c false junk fuel glob_so_map t.0 t.1 s
                else none)
              ran
            ∙ if_fits (packet_fits addr p good)
                (ground (arith, deliver-answer d c junk fuel glob_so_map addr p m good enough)),
        record { idle = ready.idle; waiting = waits; quiet = ready.quiet; known = ready.known },
        ap (λ o. s.written ++ writes junk glob_so_map addr p o)
            (ready.known p.tid good.exb.tid_fits),
        refl,
        refl,
      )
