-- ===== src/SoReceiver/Framing.antt =====
-- The receiver cuts a stream into the packets that were written to it.
use okto_wsd.Base.{
  ℕ, ◌+◌, ◌^◌, ◌<◌, ◌≡◌, refl, ap, ◌∙◌, sym, arith, List, [], ◌∷◌, ◌++◌, length, take, take_all,
  map,
}
use mathlib.Core.List.{append-nil}
use okto_wsd.Packet.Wsd.{
  WsdPacket, wsd_preamble, wsd_preamble_r, wsd_preamble_size, parse_packet_header, to_binary,
}
use okto_wsd.Packet.RoundTrip.{IsWsd, header, skewed, wsd_wire, wsd_parse-header}
use okto_wsd.Ring.{Ring}
use okto_wsd.Ring.Window.{contents}
use okto_wsd.SoReceiver.{GateInQueueElement, receive, ring_buffer_size}
use okto_wsd.SoReceiver.Runs.{behind, receive-then}
use okto_wsd.SoReceiver.Sound.{IsSound, hunting, heading, filling}
use okto_wsd.SoReceiver.Hunt.{hunt_preamble}
use okto_wsd.SoReceiver.Collect.{collect_header, collect_body, body_zero}

-- A ring that the thread can look for a preamble in: there is room for one behind what is held,
-- and the comparison for it starts below 2 ^ 16.
pub record CanHunt (r : Ring) : Type 0 where
  pub sound : IsSound r
  pub room : length (contents r) + wsd_preamble_size < ring_buffer_size
  pub below : r.reader + length (contents r) < 2 ^ 16

-- An empty ring is one.
pub CanHunt-empty : {r : Ring} → IsSound r → contents r ≡ [] → CanHunt r
CanHunt-empty {r} v e = omega (arith, ap length e)

-- What the thread puts on the queue for a packet.
abbrev pub element_of : ℕ → WsdPacket → GateInQueueElement
element_of socket p = record {
  socket = socket;
  tid = skewed p.tid;
  action = p.type;
  size = p.length;
  data' = p.body;
}

-- The thread's `packet` when it has parsed the header of `p`.
abbrev pub parsed_of : WsdPacket → WsdPacket → WsdPacket
parsed_of q p = record q {
  preamble = wsd_preamble;
  tid = skewed p.tid;
  type = p.type;
  length = p.length;
}

module _ (socket : ℕ) (q : WsdPacket) (n : ℕ) where
  -- The preamble and the header of a packet, behind anything that is held.
  pub receive_head :
      (p : WsdPacket) {r : Ring}
      → IsWsd p
      → CanHunt r
      → (r' : Ring) × (receive socket
            (wsd_preamble_r ++ header p.tid p.type p.length)
            (hunting r q n)
          ≡ ([], filling r' (parsed_of q p) p.length))
        × IsSound r'
        × (contents r' ≡ [])
  receive_head p {r} w v =
      let (r1, run1, sound1, empty1) = hunt_preamble socket q n v.sound v.room v.below in
      let (r2, run2, sound2, empty2) =
        collect_header socket q n (header p.tid p.type p.length) (header p.tid p.type p.length)
          sound1 (omega arith) (ap (λ c. c ++ header p.tid p.type p.length) empty1) refl in
      (
        r2,
        receive-then socket wsd_preamble_r (header p.tid p.type p.length) (hunting r q n)
              (heading r1 q n) [] run1
            ∙ run2
            ∙ ap (λ k. ([], filling r2 k k.length))
                (ap (parse_packet_header q) (sym (append-nil (header p.tid p.type p.length)))
                  ∙ wsd_parse-header q p.tid p.type p.length [] w.type_fits w.length_fits),
        sound2,
        empty2,
      )

  wire_split :
      (p : WsdPacket)
      → IsWsd p
      → (to_binary p).0 ≡ (wsd_preamble_r ++ header p.tid p.type p.length) ++ p.body
  wire_split p w =
      wsd_wire p
      ∙ ap (λ b. wsd_preamble_r ++ (header p.tid p.type p.length ++ b))
          (take_all p.length p.body (omega (arith, w.body_there)))

  -- The block that `WsdPacket_toBinary` writes for a packet with a body of 1 to 65534 bytes, read
  -- in MODE_PREAMBLE behind anything that the ring has room for and whose comparison does not
  -- wrap, puts one element on the queue: the socket, the type, the length and the body of the
  -- packet, and its transaction id as the header's parser reads it. The thread is back in
  -- MODE_PREAMBLE, its ring empty.
  pub receive_packet :
      (p : WsdPacket) {r : Ring}
      → IsWsd p
      → 0 < p.length
      → p.length < ring_buffer_size
      → CanHunt r
      → (r' : Ring) × (receive socket (to_binary p).0 (hunting r q n)
          ≡ (element_of socket p ∷ [], hunting r' (parsed_of q p) p.length))
        × IsSound r'
        × (contents r' ≡ [])
  receive_packet p {r} w pos small v =
      let (r1, run1, sound1, empty1) = receive_head p w v in
      let (r2, run2, sound2, empty2) =
        collect_body socket (parsed_of q p) p.length p.body p.body sound1
          (omega (arith, w.body_there)) (ap (λ c. c ++ p.body) empty1) (sym w.body_there) small in
      (
        r2,
        ap (λ bytes. receive socket bytes (hunting r q n)) (wire_split p w)
            ∙ receive-then socket (wsd_preamble_r ++ header p.tid p.type p.length) p.body
                (hunting r q n) (filling r1 (parsed_of q p) p.length) [] run1
            ∙ ap (behind []) run2,
        sound2,
        empty2,
      )

  -- A packet with an empty body puts nothing on the queue when its last byte is read. The next
  -- byte, whatever it belongs to, is taken for its body: the element has size 0 and one byte is
  -- written to its block of 0 bytes.
  pub receive_empty_body :
      (p : WsdPacket) (b : ℕ) {r : Ring}
      → IsWsd p
      → p.length ≡ 0
      → CanHunt r
      → (r1 r2 : Ring) × (receive socket (to_binary p).0 (hunting r q n)
          ≡ ([], filling r1 (parsed_of q p) p.length))
        × (receive socket (b ∷ []) (filling r1 (parsed_of q p) p.length) ≡ (
          record (element_of socket p) { size = 0; data' = b ∷ [] } ∷ [],
          hunting r2 (parsed_of q p) p.length,
        ))
  receive_empty_body p b {r} w zero_length v =
      let (r1, run1, sound1, empty1) = receive_head p w v in
      let (r2, run2, sound2, empty2) =
        body_zero socket (parsed_of q p) p.length (b ∷ []) b sound1 empty1 refl zero_length in
      (
        r1,
        r2,
        ap (λ bytes. receive socket bytes (hunting r q n))
              (wsd_wire p
                ∙ ap (λ k. wsd_preamble_r ++ (header p.tid p.type p.length ++ take k p.body))
                    zero_length
                ∙ ap (λ l. wsd_preamble_r ++ l) (append-nil (header p.tid p.type p.length)))
            ∙ run1,
        run2
            ∙ ap
                (λ k. (
                  record (element_of socket p) { size = k; data' = b ∷ [] } ∷ [],
                  hunting r2 (parsed_of q p) p.length,
                ))
                zero_length,
      )

-- The blocks of some packets, one behind the other.
abbrev pub stream : List WsdPacket → List ℕ
stream [] = []
stream (p ∷ ps) = (to_binary p).0 ++ stream ps

-- Packets as `receive_packet` takes them.
abbrev pub AllFramed : List WsdPacket → Type 0
AllFramed [] = Unit {0}
AllFramed (p ∷ ps) = IsWsd p × (0 < p.length) × (p.length < ring_buffer_size) × AllFramed ps

-- From MODE_PREAMBLE with an empty ring, a stream of packets with bodies of 1 to 65534 bytes puts
-- exactly their elements on the queue, in order, and leaves the thread in MODE_PREAMBLE with an
-- empty ring.
pub receive-stream :
    (socket : ℕ) (ps : List WsdPacket) (q : WsdPacket) (n : ℕ) {r : Ring}
    → IsSound r
    → contents r ≡ []
    → AllFramed ps
    → (r' : Ring) × (q' : WsdPacket) × (n' : ℕ) × (receive socket (stream ps) (hunting r q n)
        ≡ (map (element_of socket) ps, hunting r' q' n'))
      × IsSound r'
      × (contents r' ≡ [])
unfolding receive
receive-stream socket [] q n {r} v e all = (r, q, n, refl, v, e)
receive-stream socket (p ∷ ps) q n {r} v e (w, pos, small, all) =
    let (r1, run1, sound1, empty1) = receive_packet socket q n p w pos small (CanHunt-empty v e) in
    let (r2, q2, n2, run2, sound2, empty2) =
      receive-stream socket ps (parsed_of q p) p.length sound1 empty1 all in
    (
      r2,
      q2,
      n2,
      receive-then socket (to_binary p).0 (stream ps) (hunting r q n)
            (hunting r1 (parsed_of q p) p.length) (element_of socket p ∷ []) run1
          ∙ ap (behind (element_of socket p ∷ [])) run2,
      sound2,
      empty2,
    )
