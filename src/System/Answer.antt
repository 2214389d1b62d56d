-- ===== src/System/Answer.antt =====
-- A packet from the radio on its way to the sockets.
use okto_wsd.Base.{
  ℕ, ◌+◌, ◌<◌, ◌≤◌, ◌≡◌, refl, ap, sym, ◌∙◌, arith, List, [], ◌∷◌, ◌++◌, Bool, true, false, some,
  if◌then◌else◌, length, length-append, map, inl, inr, Option-cases, Bool-cases,
}
use mathlib.Core.List.{append-nil}
use okto_wsd.Elements.{SoTransmitterQueueElem}
use okto_wsd.Itoa.{Sprintf, itoa2}
use okto_wsd.Map2
use okto_wsd.Map2.{Key}
use okto_wsd.Nrf24.{Device}
use okto_wsd.Packet.Wsd
use okto_wsd.Packet.Wsd.{WsdPacket, wsd_type_transmit, wsd_type_receive}
use okto_wsd.Packet.Exb
use okto_wsd.Packet.Exb.{ExbPacket, exb_type_tick, exb_type_event, exb_type_eventc}
use okto_wsd.Packet.RoundTrip.{IsWsd, exb_size}
use okto_wsd.GateOut.{Assembler, on_bytes}
use okto_wsd.Base.Endian.{be_bytes}
use okto_wsd.GateOut.Limits.{hunting as out_hunting}
use okto_wsd.Ring.Search.{quiet}
use okto_wsd.GateOut.Runs.{behind, on_bytes-then}
use okto_wsd.GateOut.Hunt.{hunt_quiet}
use okto_wsd.GateOut.Framing.{radio_packet, sent_up, parsed_of as parsed}
use okto_wsd.SoTransmitter.{packet_of, on_element}
use okto_wsd.SoTransmitter.Broadcast.{write_to_lem, broadcast_lem}
use okto_wsd.System.{deliver}
use okto_wsd.System.Items.{
  IsAnswer, answer_packet, to_owner, is_event, writes, IsWaiting, skewed_id, answer,
}

module _ (d : Device) (c : Sprintf) (junk fuel : ℕ) (glob_so_map : List (Key × ℕ)) where
  if_true : (b : Bool) → (if b then true else false) ≡ b
  if_true true = refl
  if_true false = refl

  answer_lem : (addr : ℕ) (p : ExbPacket) → IsAnswer p → sent_up false addr p ≡ answer addr p
  answer_lem addr p good = rw (skewed_id p.tid good.tid_small) (
      ap
        (λ b. record {
          tid = p.tid;
          type = wsd_type_receive;
          uniall = b;
          size = p.length + 19;
          data' = be_bytes addr ++ (Exb.to_binary p).0;
        })
        (if_true (is_event p)))

  answer-IsWsd : (addr : ℕ) (p : ExbPacket) → IsAnswer p → IsWsd (packet_of junk (answer addr p))
  answer-IsWsd addr p good = record {
    tid_fits = good.exb.tid_fits;
    type_fits = omega arith;
    length_fits = omega (arith, good.short);
    body_there =
        omega (arith, (exb_size p good.exb).0, length-append (be_bytes addr) (Exb.to_binary p).0);
  }

  -- What is not for all clients goes to the owner of its id.
  pub owner_element :
      (e : SoTransmitterQueueElem) (tid_so_map : List (Key × ℕ))
      → e.uniall ≡ false
      → IsWsd (packet_of junk e)
      → e.size ≤ 65520
      → on_element c junk fuel tid_so_map glob_so_map e
        ≡ some (to_owner (Map2.get (itoa2 c e.tid) tid_so_map) (Wsd.to_binary (packet_of junk e)).0)
  unfolding on_element
  owner_element e tid_so_map one v small =
      elim (Option-cases (Map2.get (itoa2 c e.tid) tid_so_map)) [
        | inl nobody ↦ ground (arith, nobody, one)
        | inr (socket, somebody) ↦ ground (arith, somebody, one, write_to_lem junk socket e v small)
      ]

  element_answer :
      (addr : ℕ) (p : ExbPacket) (tid_so_map : List (Key × ℕ))
      → IsAnswer p
      → length glob_so_map < fuel
      → on_element c junk fuel tid_so_map glob_so_map (answer addr p)
        ≡ some (writes junk glob_so_map addr p (Map2.get (itoa2 c p.tid) tid_so_map))
  element_answer addr p tid_so_map good enough =
      let block = (Wsd.to_binary (answer_packet junk addr p)).0 in
      let chosen = λ (b : Bool). some (
        if b
        then map (λ item. (item.1, block)) glob_so_map
        else to_owner (Map2.get (itoa2 c p.tid) tid_so_map) block) in
      elim (Bool-cases (is_event p)) [
        | inl all ↦
            broadcast_lem c junk fuel tid_so_map glob_so_map (answer addr p) all
              (answer-IsWsd addr p good) (omega (arith, good.short)) enough
            ∙ ap chosen (sym all)
        | inr one ↦
            owner_element (answer addr p) tid_so_map one (answer-IsWsd addr p good)
              (omega (arith, good.short))
            ∙ ap chosen (sym one)
      ]

  pub deliver_one :
      (tid_so_map : List (Key × ℕ)) (e : SoTransmitterQueueElem) (ws : List (ℕ × List ℕ))
      → on_element c junk fuel tid_so_map glob_so_map e ≡ some ws
      → deliver d c false junk fuel glob_so_map tid_so_map (e ∷ []) ≡ some ws
  unfolding deliver
  deliver_one tid_so_map e ws h = ground (arith, h, append-nil ws)

  pub deliver-answer :
      (addr : ℕ) (p : ExbPacket) (tid_so_map : List (Key × ℕ))
      → IsAnswer p
      → length glob_so_map < fuel
      → deliver d c false junk fuel glob_so_map tid_so_map (answer addr p ∷ [])
        ≡ some (writes junk glob_so_map addr p (Map2.get (itoa2 c p.tid) tid_so_map))
  deliver-answer addr p tid_so_map good enough =
      deliver_one tid_so_map (answer addr p)
        (writes junk glob_so_map addr p (Map2.get (itoa2 c p.tid) tid_so_map))
        (element_answer addr p tid_so_map good enough)

  pub assemble_answer :
      (addr : ℕ) (p : ExbPacket) (padding : List ℕ) (a : Assembler)
      → IsAnswer p
      → length padding < 32
      → quiet 0x3b [] padding ≡ true
      → IsWaiting a
      → (a' : Assembler) × (on_bytes false addr ((Exb.to_binary p).0 ++ padding) a
          ≡ (answer addr p ∷ [], a'))
        × IsWaiting a'
  assemble_answer addr p padding a good few still waiting =
      let (r1, ran, sound, empty) =
        radio_packet false addr p a.packet a.sbody good.exb good.some_body good.short good.no_tick
          waiting.sound in
      let q = parsed a.packet p in
      let (r2, over, sound2) =
        hunt_quiet false addr q p.length padding sound (omega (arith, ap length empty))
          (ap (λ c. quiet 0x3b c padding) empty ∙ still) in
      let whole = (Exb.to_binary p).0 in
      (
        out_hunting r2 q p.length,
        ap
              (λ m.
                on_bytes false addr (whole ++ padding)
                  (record { in_buf = a.in_buf; mode = m; packet = a.packet; sbody = a.sbody }))
              waiting.between
            ∙ on_bytes-then false addr whole padding (out_hunting a.in_buf a.packet a.sbody)
                (out_hunting r1 q p.length) (sent_up false addr p ∷ []) ran
            ∙ ap (behind (sent_up false addr p ∷ [])) over
            ∙ ap (λ e. (e ∷ [], out_hunting r2 q p.length)) (answer_lem addr p good),
        record { between = refl; sound = sound2 },
      )
