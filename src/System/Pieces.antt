-- ===== src/System/Pieces.antt =====
-- Bytes of several clients, cut into pieces and mixed.
use okto_wsd.Base.{
  ℕ, ◌≡◌, inl, inr, refl, ap, sym, ◌∙◌, ◌==◌, ==_iff, ==_refl, arith, List, [], ◌∷◌, ◌++◌, true,
  false, Option, none, some, if◌then◌else◌, map, Bool-cases,
}
use mathlib.Core.Path.{subst}
use okto_wsd.Elements.{GateInQueueElement}
use okto_wsd.Packet.Wsd.{WsdPacket}
use okto_wsd.SoReceiver
use okto_wsd.SoReceiver.{
  Receiver, Mode, mode_preamble, mode_header, mode_body, on_byte, receive, enqueue,
}
use okto_wsd.SoReceiver.Sound.{hunting}
use okto_wsd.SoReceiver.Runs.{behind, receive-append}
use okto_wsd.SoReceiver.Framing.{AllFramed, element_of, stream, receive-stream}
use okto_wsd.System.{Event, from_client, from_radio, set_receiver}
use okto_wsd.System.Items.{IsIdle}

-- What the receiving threads put on the dispatcher's queue, all of them, in order.
abbrev pub queued : List Event → (ℕ → Receiver) → List GateInQueueElement
queued [] rs = []
queued (from_client j bytes ∷ es) rs =
    (receive j bytes (rs j)).0 ++ queued es (set_receiver j (receive j bytes (rs j)).1 rs)
queued (from_radio addr bytes ∷ es) rs = queued es rs

-- The receiving threads then.
abbrev pub after : List Event → (ℕ → Receiver) → ℕ → Receiver
after [] rs = rs
after (from_client j bytes ∷ es) rs = after es (set_receiver j (receive j bytes (rs j)).1 rs)
after (from_radio addr bytes ∷ es) rs = after es rs

abbrev AllFrom : ℕ → List GateInQueueElement → Type 0
AllFrom j [] = Unit
AllFrom j (e ∷ es) = (e.socket ≡ j) × AllFrom j es

abbrev FromIf : ℕ → Option GateInQueueElement → Type 0
FromIf j none = Unit
FromIf j (some e) = e.socket ≡ j

in_body-FromIf : (j : ℕ) (s : Receiver) (n : ℕ) → FromIf j (SoReceiver.in_body j s n).0
unfolding SoReceiver.in_body
in_body-FromIf j s n = ground arith

dispatch-FromIf :
    (j : ℕ) (m : Mode) (s : Receiver) (n : ℕ) → FromIf j (SoReceiver.dispatch j m s n).0
unfolding SoReceiver.dispatch
dispatch-FromIf j mode_preamble s n = tt
dispatch-FromIf j mode_header s n = tt
dispatch-FromIf j mode_body s n = in_body-FromIf j s n

enqueue-AllFrom :
    (j : ℕ) (o : Option GateInQueueElement) (rest : List GateInQueueElement × Receiver)
    → FromIf j o
    → AllFrom j rest.0
    → AllFrom j (enqueue o rest).0
enqueue-AllFrom j none rest h k = k
enqueue-AllFrom j (some e) rest h k = (h, k)

receive-AllFrom : (j : ℕ) (chs : List ℕ) (r : Receiver) → AllFrom j (receive j chs r).0
unfolding receive on_byte
receive-AllFrom j [] r = tt
receive-AllFrom j (ch ∷ chs) r =
    enqueue-AllFrom j (on_byte j ch r).0 (receive j chs (on_byte j ch r).1)
      (dispatch-FromIf j r.mode _ _) (receive-AllFrom j chs (on_byte j ch r).1)

pub after-cons :
    (e : Event) (es : List Event) (rs : ℕ → Receiver)
    → after (e ∷ es) rs ≡ after es (after (e ∷ []) rs)
after-cons (from_client j bytes) es rs = refl
after-cons (from_radio addr bytes) es rs = refl

module _ (k : ℕ) where
  -- the elements of the client
  abbrev pub only : List GateInQueueElement → List GateInQueueElement
  only [] = []
  only (e ∷ es) = if e.socket == k then e ∷ only es else only es

  -- All that the client has sent.
  abbrev pub sent : List Event → List ℕ
  sent [] = []
  sent (from_client j bytes ∷ es) = if j == k then bytes ++ sent es else sent es
  sent (from_radio addr bytes ∷ es) = sent es

  only-mine :
      (es rest : List GateInQueueElement) → AllFrom k es → only (es ++ rest) ≡ es ++ only rest
  only-mine [] rest all = refl
  only-mine (e ∷ es) rest (mine, all) =
      let at : (e.socket == k) ≡ true = ap (λ j. j == k) mine ∙ ==_refl k in
      rw at (ap (λ l. e ∷ l) (only-mine es rest all))

  only-other :
      (j : ℕ) (es rest : List GateInQueueElement)
      → (j == k) ≡ false
      → AllFrom j es
      → only (es ++ rest) ≡ only rest
  only-other j [] rest other all = refl
  only-other j (e ∷ es) rest other (from, all) =
      let at : (e.socket == k) ≡ false = ap (λ i. i == k) from ∙ other in
      rw at (only-other j es rest other all)

  set_receiver-mine : (r : Receiver) (old : ℕ → Receiver) → set_receiver k r old k ≡ r
  set_receiver-mine r old = rw (==_refl k) refl

  set_receiver-other :
      (j : ℕ) (r : Receiver) (old : ℕ → Receiver)
      → (j == k) ≡ false
      → set_receiver j r old k ≡ old k
  set_receiver-other j r old other = ground arith

  sent-mine :
      (bytes : List ℕ) (es : List Event) → sent (from_client k bytes ∷ es) ≡ bytes ++ sent es
  sent-mine bytes es = rw (==_refl k) refl

  -- The client's elements on the queue, and its thread, are those of its bytes read in one go.
  abbrev AsOne : List Event → (ℕ → Receiver) → Type 0
  AsOne es rs = (only (queued es rs), after es rs k) ≡ receive k (sent es) (rs k)

  from_client-AsOne :
      (bytes : List ℕ) (es : List Event) (rs : ℕ → Receiver)
      → ((rs' : ℕ → Receiver) → AsOne es rs')
      → AsOne (from_client k bytes ∷ es) rs
  from_client-AsOne bytes es rs rest =
      let (out, r) = receive k bytes (rs k) in
      let rs' = set_receiver k r rs in
      ap (λ l. (l, after es rs' k)) (only-mine out (queued es rs') (receive-AllFrom k bytes (rs k)))
      ∙ ap (behind out) (rest rs')
      ∙ ap (λ t. behind out (receive k (sent es) t)) (set_receiver-mine r rs)
      ∙ sym (receive-append k bytes (sent es) (rs k))
      ∙ ap (λ l. receive k l (rs k)) (sym (sent-mine bytes es))

  from_other-AsOne :
      (j : ℕ) (bytes : List ℕ) (es : List Event) (rs : ℕ → Receiver)
      → (j == k) ≡ false
      → ((rs' : ℕ → Receiver) → AsOne es rs')
      → AsOne (from_client j bytes ∷ es) rs
  from_other-AsOne j bytes es rs other rest =
      let (out, r) = receive j bytes (rs j) in
      let rs' = set_receiver j r rs in
      ap (λ l. (l, after es rs' k))
        (only-other j out (queued es rs') other (receive-AllFrom j bytes (rs j)))
      ∙ rest rs'
      ∙ ap (receive k (sent es)) (set_receiver-other j r rs other)
      ∙ ap (λ l. receive k l (rs k)) (rw other refl)

  queued-AsOne : (es : List Event) (rs : ℕ → Receiver) → AsOne es rs
  unfolding receive
  queued-AsOne [] rs = refl
  queued-AsOne (from_radio addr bytes ∷ es) rs = queued-AsOne es rs
  queued-AsOne (from_client j bytes ∷ es) rs = elim (Bool-cases (j == k)) [
    | inl mine ↦
        subst (λ i. AsOne (from_client i bytes ∷ es) rs) (sym ((==_iff j k).0 mine))
          (from_client-AsOne bytes es rs (queued-AsOne es))
    | inr other ↦ from_other-AsOne j bytes es rs other (queued-AsOne es)
  ]

  -- A client that is between two packets and sends whole ones.
  pub queued-stream :
      (es : List Event) (rs : ℕ → Receiver) (ps : List WsdPacket)
      → IsIdle (rs k)
      → AllFramed ps
      → sent es ≡ stream ps
      → (only (queued es rs) ≡ map (element_of k) ps) × IsIdle (after es rs k)
  queued-stream es rs ps idle all whole =
      let r = rs k in
      let (in_buf, packet, sbody, ran, sound, empty) =
        receive-stream k ps r.packet r.sbody idle.sound idle.empty all in
      let done : (only (queued es rs), after es rs k)
          ≡ (map (element_of k) ps, hunting in_buf packet sbody) =
        queued-AsOne es rs
        ∙ ap (λ l. receive k l r) whole
        ∙ ap
            (λ m.
              receive k (stream ps)
                (record { in_buf = r.in_buf; mode = m; packet = r.packet; sbody = r.sbody }))
            idle.between
        ∙ ran in
      (
        ap (λ q. q.0) done,
        subst IsIdle (sym (ap (λ q. q.1) done))
            (record { between = refl; sound = sound; empty = empty }),
      )
