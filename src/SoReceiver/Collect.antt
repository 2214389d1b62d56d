-- ===== src/SoReceiver/Collect.antt =====
-- The receiver in MODE_HEADER and in MODE_BODY: it collects bytes up to a count, then reads all.
use okto_wsd.Base.{
  ℕ, suc, ◌≤◌, ◌<◌, ◌≡◌, ap, ◌∙◌, sym, arith, List, [], ◌∷◌, ◌++◌, none, some, leb-true, leb-false,
  length, length-append,
}
use mathlib.Core.List.{append_assoc}
use okto_wsd.Packet.Wsd.{WsdPacket, wsd_header_size, parse_packet_header}
use okto_wsd.Ring.{Ring, write, data_length, read_all, data_clear}
use okto_wsd.Ring.Window.{contents}
use okto_wsd.Ring.Refine.{read_all_lem, contents-data_clear}
use okto_wsd.SoReceiver.{
  GateInQueueElement, in_header, in_body, dispatch, on_byte, receive, ring_buffer_size,
}
use okto_wsd.SoReceiver.Runs.{receive_silent, receive_emit}
use okto_wsd.SoReceiver.Sound.{
  IsSound, write-IsSound, data_clear-IsSound, hunting, heading, filling, contents_step, length_step,
}

-- `RINGS_readAll` in terms of `RINGS_dataClear`.
read_all-data_clear : (r : Ring) → IsSound r → read_all r ≡ (contents r, data_clear r)
unfolding data_clear
read_all-data_clear r v = read_all_lem r v.valid

module _ (socket : ℕ) (p : WsdPacket) (n b : ℕ) {r : Ring} (v : IsSound r)
    (room : suc (length (contents r)) < ring_buffer_size) where
  stored : contents (write b r) ≡ contents r ++ (b ∷ [])
  stored = contents_step b v.valid (omega arith)

  count : data_length (write b r) ≡ suc (length (contents r))
  count = length_step b v.valid (omega arith)

  header_byte_early :
      suc (length (contents r)) < wsd_header_size
      → on_byte socket b (heading r p n) ≡ (none, heading (write b r) p n)
  unfolding on_byte dispatch in_header
  header_byte_early few =
      rw (leb-false wsd_header_size (data_length (write b r)) (omega (arith, count)))

  header_byte_last :
      suc (length (contents r)) ≡ wsd_header_size
      → let q = parse_packet_header p (contents r ++ (b ∷ [])) in
        on_byte socket b (heading r p n) ≡ (none, filling (data_clear (write b r)) q q.length)
  unfolding on_byte dispatch in_header
  header_byte_last few = rw (
    leb-true wsd_header_size (data_length (write b r)) (omega (arith, count)),
    read_all-data_clear (write b r) (write-IsSound b v),
    stored,
  )

  body_byte_early :
      suc (length (contents r)) < n
      → on_byte socket b (filling r p n) ≡ (none, filling (write b r) p n)
  unfolding on_byte dispatch in_body
  body_byte_early few = rw (leb-false n (data_length (write b r)) (omega (arith, count)))

  pub body_byte_last :
      n ≤ suc (length (contents r))
      → on_byte socket b (filling r p n) ≡ (
        some (record {
          socket = socket;
          tid = p.tid;
          action = p.type;
          size = n;
          data' = contents r ++ (b ∷ []);
        }),
        hunting (data_clear (write b r)) p n,
      )
  unfolding on_byte dispatch in_body
  body_byte_last few = rw (
    leb-true n (data_length (write b r)) (omega (arith, count)),
    read_all-data_clear (write b r) (write-IsSound b v),
    stored,
  )

-- What stands in the ring when some bytes have come, as bytes still to come.
moved :
    {r : Ring} (b : ℕ) (bs all : List ℕ)
    → IsSound r
    → suc (length (contents r)) < ring_buffer_size
    → contents r ++ (b ∷ bs) ≡ all
    → contents (write b r) ++ bs ≡ all
moved {r} b bs all v room e =
    ap (λ c. c ++ bs) (contents_step b v.valid (omega arith))
    ∙ append_assoc (contents r) (b ∷ []) bs
    ∙ e

module _ (socket : ℕ) (p : WsdPacket) (n : ℕ) (all : List ℕ) where
  abbrev parsed : WsdPacket
  parsed = parse_packet_header p all

  abbrev element : GateInQueueElement
  element = record { socket = socket; tid = p.tid; action = p.type; size = n; data' = all }

  -- Seven bytes in MODE_HEADER are parsed, and leave the ring empty.
  pub collect_header :
      (bs : List ℕ) {r : Ring}
      → IsSound r
      → 0 < length bs
      → contents r ++ bs ≡ all
      → length all ≡ wsd_header_size
      → (r' : Ring) × (receive socket bs (heading r p n)
          ≡ ([], filling r' (parse_packet_header p all) (parse_packet_header p all).length))
        × IsSound r'
        × (contents r' ≡ [])
  unfolding receive
  collect_header [] v pos e l = absurd (omega arith)
  collect_header (b ∷ []) {r} v pos e l =
      let k : suc (length (contents r)) ≡ wsd_header_size =
        omega (arith, ap length e, length-append (contents r) (b ∷ [])) in
      (
        data_clear (write b r),
        receive_silent socket b [] (heading r p n)
            (filling (data_clear (write b r)) parsed parsed.length)
            (header_byte_last socket p n b v (omega arith) k
              ∙ ap
                  (λ l. (
                    none,
                    filling (data_clear (write b r)) (parse_packet_header p l)
                        (parse_packet_header p l).length,
                  ))
                  e),
        data_clear-IsSound (write-IsSound b v),
        contents-data_clear (write b r),
      )
  collect_header (b ∷ c ∷ bs) {r} v pos e l =
      let k : suc (length (contents r)) < wsd_header_size =
        omega (arith, ap length e, length-append (contents r) (b ∷ c ∷ bs)) in
      let (r', run, sound, empty) =
        collect_header (c ∷ bs) {r = write b r} (write-IsSound b v) (omega arith)
          (moved b (c ∷ bs) all v (omega arith) e) l in
      (
        r',
        receive_silent socket b (c ∷ bs) (heading r p n) (heading (write b r) p n)
              (header_byte_early socket p n b v (omega arith) k)
            ∙ run,
        sound,
        empty,
      )

  -- The bytes of a body of at least one byte go on the queue, and leave the ring empty.
  pub collect_body :
      (bs : List ℕ) {r : Ring}
      → IsSound r
      → 0 < length bs
      → contents r ++ bs ≡ all
      → length all ≡ n
      → n < ring_buffer_size
      → (r' : Ring) × (receive socket bs (filling r p n) ≡ (element ∷ [], hunting r' p n))
        × IsSound r'
        × (contents r' ≡ [])
  unfolding receive
  collect_body [] v pos e l small = absurd (omega arith)
  collect_body (b ∷ []) {r} v pos e l small =
      let k : suc (length (contents r)) ≡ n =
        omega (arith, ap length e, length-append (contents r) (b ∷ [])) in
      (
        data_clear (write b r),
        receive_emit socket b [] (filling r p n) (hunting (data_clear (write b r)) p n) element (
            body_byte_last socket p n b v (omega arith) (omega arith)
            ∙ ap
                (λ l. (
                  some (record {
                    socket = socket;
                    tid = p.tid;
                    action = p.type;
                    size = n;
                    data' = l;
                  }),
                  hunting (data_clear (write b r)) p n,
                ))
                e),
        data_clear-IsSound (write-IsSound b v),
        contents-data_clear (write b r),
      )
  collect_body (b ∷ c ∷ bs) {r} v pos e l small =
      let k : suc (length (contents r)) < n =
        omega (arith, ap length e, length-append (contents r) (b ∷ c ∷ bs)) in
      let (r', run, sound, empty) =
        collect_body (c ∷ bs) {r = write b r} (write-IsSound b v) (omega arith)
          (moved b (c ∷ bs) all v (omega arith) e) l small in
      (
        r',
        receive_silent socket b (c ∷ bs) (filling r p n) (filling (write b r) p n)
              (body_byte_early socket p n b v (omega arith) k)
            ∙ run,
        sound,
        empty,
      )

  -- A body of no more bytes than are held already takes one byte too many with it.
  pub body_zero :
      (b : ℕ) {r : Ring}
      → IsSound r
      → contents r ≡ []
      → all ≡ b ∷ []
      → n ≡ 0
      → (r' : Ring) × (receive socket (b ∷ []) (filling r p n) ≡ (element ∷ [], hunting r' p n))
        × IsSound r'
        × (contents r' ≡ [])
  unfolding receive
  body_zero b {r} v e f z = (
    data_clear (write b r),
    receive_emit socket b [] (filling r p n) (hunting (data_clear (write b r)) p n) element (
        body_byte_last socket p n b v (omega (arith, ap length e)) (omega arith)
        ∙ ap
            (λ l. (
              some (record { socket = socket; tid = p.tid; action = p.type; size = n; data' = l }),
              hunting (data_clear (write b r)) p n,
            ))
            (ap (λ c. c ++ (b ∷ [])) e ∙ sym f)),
    data_clear-IsSound (write-IsSound b v),
    contents-data_clear (write b r),
  )
