-- ===== src/GateOut/Framing.antt =====
-- A packet from the radio becomes an element for the clients.
use okto_wsd.Base.{
  ℕ, suc, ◌%◌, ◌+◌, ◌^◌, true, ◌||◌, if◌then◌else◌, ◌==◌, ◌<◌, ◌≤◌, ◌≡◌, ◌≢◌, refl, ap, ap₂, ◌∙◌,
  arith, List, [], ◌∷◌, ◌++◌, Bool, none, length, take, drop, take_all,
}
use okto_wsd.Packet.Exb.{
  ExbPacket, to_binary, parse_packet_header, exb_preamble, exb_preamble_r, exb_type_tick,
  exb_type_event, exb_type_eventc,
}
use okto_wsd.Packet.RoundTrip.{IsExb, header, skewed, exb_wire, exb_parse-header}
use okto_wsd.Ring.{Ring, write}
use okto_wsd.Ring.Window.{contents}
use okto_wsd.SoReceiver.Sound.{contents_step}
use okto_wsd.GateOut.{Assembler, on_byte, on_bytes, element_of, addr_bytes}
use okto_wsd.Base.Endian.{be_bytes}
use okto_wsd.Elements.{SoTransmitterQueueElem}
use okto_wsd.Packet.Wsd.{wsd_type_receive}
use okto_wsd.Packet.Fields.{top_byte, third_byte, second_byte, low_byte}
use okto_wsd.GateOut.Limits.{hunting, heading, filling, IsSound, write-IsSound}
use okto_wsd.GateOut.Hunt.{hunt_preamble}
use okto_wsd.GateOut.Collect.{absorb, collect_body, head_early, head_last}

-- A packet as the header's parser reads it.
abbrev pub parsed_of : ExbPacket → ExbPacket → ExbPacket
parsed_of q p = record q {
  preamble = exb_preamble;
  tid = skewed p.tid;
  type = p.type;
  length = p.length;
}

addr_bytes_lem : (addr : ℕ) → addr_bytes addr ≡ be_bytes addr
addr_bytes_lem addr = rw (top_byte addr, third_byte addr, second_byte addr, low_byte addr) refl

-- What the clients are to get for a packet: a RECEIVE with the sender's address in front.
abbrev pub sent_up : Bool → ℕ → ExbPacket → SoTransmitterQueueElem
sent_up uniall addr p = record {
  tid = skewed p.tid;
  type = wsd_type_receive;
  uniall = if p.type == exb_type_event || (p.type == exb_type_eventc) then true else uniall;
  size = p.length + 19;
  data' = be_bytes addr ++ (to_binary p).0;
}

sent_up_lem :
    (uniall : Bool) (addr : ℕ) (p q : ExbPacket)
    → p.length ≤ 240
    → element_of uniall addr (parsed_of q p) p.length (to_binary p).0 ≡ sent_up uniall addr p
unfolding element_of
sent_up_lem uniall addr p q short =
    let size : (p.length + 7 + 8 + 4) % 2 ^ 16 ≡ p.length + 19 = omega (arith, short) in
    ap₂
      (λ n bytes. record {
        tid = skewed p.tid;
        type = wsd_type_receive;
        uniall = if p.type == exb_type_event || (p.type == exb_type_eventc) then true else uniall;
        size = n;
        data' = bytes ++ (to_binary p).0;
      })
      size (addr_bytes_lem addr)

module _ (uniall : Bool) (addr : ℕ) where
  on_bytes_step :
      (b : ℕ) (rest : List ℕ) (s t : Assembler)
      → on_byte uniall addr b s ≡ (none, t)
      → on_bytes uniall addr (b ∷ rest) s ≡ on_bytes uniall addr rest t
  unfolding on_bytes
  on_bytes_step b rest s t h = rw h refl

  take_header :
      (q p : ExbPacket) (n : ℕ) (rest : List ℕ) {r : Ring}
      → IsExb p
      → IsSound r
      → contents r ≡ exb_preamble_r
      → (r' : Ring) × (on_bytes uniall addr (header p.tid p.type p.length ++ rest) (heading r q n)
          ≡ on_bytes uniall addr rest (filling r' (parsed_of q p) p.length))
        × IsSound r'
        × (contents r' ≡ exb_preamble_r ++ header p.tid p.type p.length)
  take_header q p n rest {r} w v held =
      let tid_on : List ℕ = take 6 (header p.tid p.type p.length) in
      let last : ℕ = p.length % 256 in
      let (r1, run1, sound1, held1) =
        absorb uniall addr (λ ring. heading ring q n) 15
          (λ b ring u room few. head_early uniall addr b q n u room few) tid_on (last ∷ rest) v
          (omega (arith, ap length held)) (omega arith) in
      let kept : contents r1 ≡ exb_preamble_r ++ tid_on = held1 ∙ ap (λ c. c ++ tid_on) held in
      let whole : contents r1 ++ (last ∷ []) ≡ exb_preamble_r ++ header p.tid p.type p.length =
        ap (λ c. c ++ (last ∷ [])) kept in
      let room : suc (length (contents r1)) ≡ 15 = omega (arith, ap length kept) in
      let parsed : parse_packet_header q (take 7 (drop 8 (contents r1 ++ (last ∷ []))))
          ≡ parsed_of q p =
        ap (λ c. parse_packet_header q (take 7 (drop 8 c))) whole
        ∙ exb_parse-header q p.tid p.type p.length [] w.type_fits w.length_fits in
      (
        write last r1,
        run1
            ∙ on_bytes_step last rest (heading r1 q n)
                (filling (write last r1) (parsed_of q p) p.length)
                (head_last uniall addr last q n sound1 (omega arith) room
                  ∙ ap (λ g. (none, filling (write last r1) g g.length)) parsed),
        write-IsSound last sound1,
        contents_step last sound1.valid (omega (arith, sound1.size)) ∙ whole,
      )

  -- Between packets, whatever the ring holds, the block that ExbPacket_toBinary writes for a packet
  -- that is no tick and has a body of 1 to 240 bytes puts one element on the queue: of type
  -- RECEIVE, with the big-endian address of the sender and then the whole block, the size of both,
  -- the transaction id as the header's parser reads it, and for all clients if the packet is an
  -- event. The ring is empty then.
  pub radio_packet :
      (p q : ExbPacket) (n : ℕ) {r : Ring}
      → IsExb p
      → 0 < p.length
      → p.length ≤ 240
      → p.type ≢ exb_type_tick
      → IsSound r
      → (r' : Ring) × (on_bytes uniall addr (to_binary p).0 (hunting r q n)
          ≡ (sent_up uniall addr p ∷ [], hunting r' (parsed_of q p) p.length))
        × IsSound r'
        × (contents r' ≡ [])
  radio_packet p q n {r} w low high other v =
      let head : List ℕ = header p.tid p.type p.length in
      let wire : (to_binary p).0 ≡ exb_preamble_r ++ (head ++ p.body) =
        exb_wire p
        ∙ ap (λ b. exb_preamble_r ++ (head ++ b))
            (take_all p.length p.body (omega (arith, w.body_there))) in
      let (r1, run1, sound1, held1) = hunt_preamble uniall addr q n (head ++ p.body) v in
      let (r2, run2, sound2, held2) = take_header q p n p.body w sound1 held1 in
      let (r3, run3, sound3, empty3) =
        collect_body uniall addr (parsed_of q p) p.length (exb_preamble_r ++ (head ++ p.body))
          p.body other sound2 (omega (arith, w.body_there)) (ap (λ c. c ++ p.body) held2)
          (omega (arith, w.body_there)) high in
      let ran : on_bytes uniall addr (to_binary p).0 (hunting r q n) ≡ (
        element_of uniall addr (parsed_of q p) p.length (to_binary p).0 ∷ [],
        hunting r3 (parsed_of q p) p.length,
      ) =
        rw wire (run1 ∙ run2 ∙ run3) in
      (
        r3,
        ran
            ∙ ap (λ e. (e ∷ [], hunting r3 (parsed_of q p) p.length))
                (sent_up_lem uniall addr p q high),
        sound3,
        empty3,
      )
