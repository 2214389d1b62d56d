-- ===== src/System/Matrix.antt =====
-- A request to set the addresses, on its way from the client's socket to the chip and back.
use okto_wsd.Base.{
  ℕ, ◌≡◌, refl, ap, sym, ◌∙◌, arith, List, [], ◌∷◌, ◌++◌, Bool, true, false, Option, none, some,
}
use okto_wsd.Elements.{GateInQueueElement, RfTransmitterQueueElem}
use okto_wsd.Itoa.{Sprintf, itoa2}
use okto_wsd.Map2
use okto_wsd.Map2.{Key}
use okto_wsd.Nrf24.{Device, Pipes}
use okto_wsd.Packet.Wsd
use okto_wsd.Packet.Wsd.{WsdPacket}
use okto_wsd.Packet.RoundTrip.{IsWsd}
use okto_wsd.SoReceiver.{Receiver}
use okto_wsd.SoReceiver.Framing.{element_of}
use okto_wsd.GateIn
use okto_wsd.GateIn.{GateIn, store_tid, read_pipes, write_pipes, complete_empty_result}
use okto_wsd.GateIn.Distinct.{matrix}
use okto_wsd.GateIn.Matrix.{matrix_accepted, matrix_refused}
use okto_wsd.SoTransmitter.{packet_of}
use okto_wsd.System.{System, set_receiver, deliver, dispatch_all}
use okto_wsd.System.Items.{
  Verdict, accepted, refused, sets, IsMatrix, IsGood, to_owner, request, reply_of, set_by,
  skewed_id,
}
use okto_wsd.System.Ask.{store_tid-pipes}
use okto_wsd.System.Answer.{owner_element, deliver_one}

module _ (d : Device) (c : Sprintf) (junk fuel : ℕ) (glob_so_map : List (Key × ℕ)) where
  -- The chip after a request: the addresses are written to it if they are taken.
  abbrev pub chip_after : WsdPacket → Verdict → d.Chip → d.Chip
  chip_after p accepted ch = (read_pipes d (write_pipes d (matrix p.body) ch)).1
  chip_after p (refused error) ch = ch

  -- The dispatcher's state behind a request.
  abbrev pub after_set : ℕ → WsdPacket → Verdict → GateIn d.Chip → GateIn d.Chip
  after_set socket p v g = record {
    tid_so_map = (store_tid c (request socket p) g).tid_so_map;
    pipes = set_by (sets socket p v) g.pipes;
    rf_queue = g.rf_queue;
    so_queue = g.so_queue ++ (reply_of (d.junk 1) p.tid v ∷ []);
    chip = chip_after p v g.chip;
  }

  set_frame :
      (e : GateInQueueElement) (g : GateIn d.Chip)
      → ((store_tid c e g).rf_queue ≡ g.rf_queue) × ((store_tid c e g).chip ≡ g.chip)
  unfolding store_tid
  set_frame e g = (ground arith, ground arith)

  pub set_of : (socket : ℕ) (p : WsdPacket) (v : Verdict) → IsGood d (sets socket p v) → IsMatrix p
  set_of socket p accepted good = good.0
  set_of socket p (refused error) good = good.0

  element_set :
      (socket : ℕ) (p : WsdPacket) (v : Verdict) (g : GateIn d.Chip)
      → IsGood d (sets socket p v)
      → (freed : Bool) × (GateIn.on_element d c false (request socket p) g
          ≡ some (after_set socket p v g, freed))
  unfolding complete_empty_result
  element_set socket p accepted g (good, long, distinct, law, room) =
      let e = request socket p in
      (
        true,
        matrix_accepted d c false e g law good.sets_matrix good.bytes long distinct
            ∙ ap (λ q. some (record (after_set socket p accepted g) { rf_queue = q }, true))
                (set_frame e g).0,
      )
  element_set socket p (refused error) g (good, why) =
      let e = request socket p in
      let left = λ (q : List RfTransmitterQueueElem) (a : Pipes) (ch : d.Chip). some (
        record (after_set socket p (refused error) g) { rf_queue = q; pipes = a; chip = ch },
        false,
      ) in
      (
        false,
        matrix_refused d c false e g error good.sets_matrix good.bytes why
            ∙ ap (λ q. left q (store_tid c e g).pipes (store_tid c e g).chip) (set_frame e g).0
            ∙ ap (λ a. left g.rf_queue a (store_tid c e g).chip)
                (store_tid-pipes d c junk fuel glob_so_map e g)
            ∙ ap (left g.rf_queue g.pipes) (set_frame e g).1,
      )

  run_set :
      (socket : ℕ) (p : WsdPacket) (v : Verdict) (g : GateIn d.Chip)
      → IsGood d (sets socket p v)
      → GateIn.run d c false (element_of socket p ∷ []) g ≡ some (after_set socket p v g)
  unfolding GateIn.run
  run_set socket p v g good =
      let (freed, done) = element_set socket p v g good in
      ap (λ t. GateIn.run d c false (record (element_of socket p) { tid = t } ∷ []) g)
        (skewed_id p.tid (set_of socket p v good).tid_small)
      ∙ ap (λ o. elim o [ none ↦ none | some x ↦ some x.0 ]) done

  reply-IsWsd :
      (socket : ℕ) (p : WsdPacket) (v : Verdict)
      → IsGood d (sets socket p v)
      → IsWsd (packet_of junk (reply_of (d.junk 1) p.tid v))
  reply-IsWsd socket p accepted (good, long, distinct, law, room) = record {
    tid_fits = good.wsd.tid_fits;
    type_fits = omega arith;
    length_fits = omega arith;
    body_there = sym room;
  }
  reply-IsWsd socket p (refused error) (good, why) = record {
    tid_fits = good.wsd.tid_fits;
    type_fits = omega arith;
    length_fits = omega arith;
    body_there = refl;
  }

  -- What a reply becomes on its client's socket.
  abbrev pub reply_writes : WsdPacket → Verdict → Option ℕ → List (ℕ × List ℕ)
  reply_writes p v owner =
      to_owner owner (Wsd.to_binary (packet_of junk (reply_of (d.junk 1) p.tid v))).0

  deliver_reply :
      (socket : ℕ) (p : WsdPacket) (v : Verdict) (m : List (Key × ℕ))
      → IsGood d (sets socket p v)
      → deliver d c false junk fuel glob_so_map m (reply_of (d.junk 1) p.tid v ∷ [])
        ≡ some (reply_writes p v (Map2.get (itoa2 c p.tid) m))
  deliver_reply socket p accepted m good =
      let e = reply_of (d.junk 1) p.tid accepted in
      deliver_one d c junk fuel glob_so_map m e
        (reply_writes p accepted (Map2.get (itoa2 c p.tid) m))
        (owner_element d c junk fuel glob_so_map e m refl (reply-IsWsd socket p accepted good)
          (omega arith))
  deliver_reply socket p (refused error) m good =
      let e = reply_of (d.junk 1) p.tid (refused error) in
      deliver_one d c junk fuel glob_so_map m e
        (reply_writes p (refused error) (Map2.get (itoa2 c p.tid) m))
        (owner_element d c junk fuel glob_so_map e m refl
          (reply-IsWsd socket p (refused error) good) (omega arith))

  -- The system behind a request, with the receiver that framed it.
  abbrev pub system_set :
      ℕ → WsdPacket → Verdict → Receiver → List (ℕ × List ℕ) → System d.Chip → System d.Chip
  system_set socket p v rcv ws s = record {
    receivers = set_receiver socket rcv s.receivers;
    gate_in = record (after_set socket p v s.gate_in) { so_queue = [] };
    assembler = s.assembler;
    written = s.written ++ ws;
  }

  pub dispatch_set :
      (socket : ℕ) (p : WsdPacket) (v : Verdict) (rcv : Receiver) (s : System d.Chip)
      → IsGood d (sets socket p v)
      → s.gate_in.so_queue ≡ []
      → let m = (after_set socket p v s.gate_in).tid_so_map in
        dispatch_all d c false junk fuel glob_so_map socket (element_of socket p ∷ []) rcv s
        ≡ some (system_set socket p v rcv (reply_writes p v (Map2.get (itoa2 c p.tid) m)) s)
  unfolding dispatch_all
  dispatch_set socket p v rcv s good quiet =
      let one : (after_set socket p v s.gate_in).so_queue ≡ reply_of (d.junk 1) p.tid v ∷ [] =
        ap (λ q. q ++ (reply_of (d.junk 1) p.tid v ∷ [])) quiet in
      let m = (after_set socket p v s.gate_in).tid_so_map in
      ground (arith, run_set socket p v s.gate_in good, one, deliver_reply socket p v m good)
