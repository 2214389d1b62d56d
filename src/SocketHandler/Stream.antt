-- ===== src/SocketHandler/Stream.antt =====
-- A client's requests through both of the earlier threads.
use okto_wsd.Base.{
  ℕ, zero, ◌+◌, ◌/◌, take, Bool-cases, inl, inr, ◌<◌, ◌≡◌, refl, ap, sym, ◌∙◌, arith, List, [], ◌∷◌,
  ◌++◌, none, some, suc, get_or, length, map, if◌then◌else◌, ◌==◌, length-append, Bool,
}
use mathlib.Core.List.{append-nil, append_assoc}
use okto_wsd.Ring.{Ring, write, data_clear}
use okto_wsd.Ring.Window.{contents}
use okto_wsd.Elements.{RfTransmitterQueueElem, PipeQueueElem}
use okto_wsd.Rf.Cut.{transmit-fragments}
use okto_wsd.RfTransmitter.{fragments}
use okto_wsd.RfTransmitter.Fragments.{payloads, fragments_lem}
use okto_wsd.SocketHandler.{
  QueueElement, mode_preamble, mode_header, mode_body, preamble, handle, process,
}
use okto_wsd.SocketHandler.Framing.{
  IsSound, handler, behind, handle-then, handle_one, collect, last_of_preamble, last_of_header,
  last_of_body,
}

-- A block on the socket: the preamble, a header with two bytes that are not read, and the body.
pub record Request : Type 0 where
  pub action : ℕ
  pub unread : ℕ
  pub size : ℕ
  pub unread' : ℕ
  pub body : List ℕ

abbrev pub header_of : Request → List ℕ
header_of p = p.action ∷ p.unread ∷ p.size ∷ p.unread' ∷ []

abbrev pub block_of : Request → List ℕ
block_of p = preamble ++ (header_of p ++ p.body)

abbrev pub IsRequest : Request → Type 0
IsRequest p = (length p.body ≡ p.size) × (0 < p.size) × (p.size < 256)

abbrev pub element_of : Request → QueueElement
element_of p = record { action = p.action; size = p.size; data' = p.body }

count_of :
    (ch : ℕ) (q : Ring) (all : List ℕ)
    → contents q ++ (ch ∷ []) ≡ all
    → suc (length (contents q)) ≡ length all
count_of ch q all e = omega (arith, ap length e, length-append (contents q) (ch ∷ []))

-- What each part of a block does, from an empty ring.
module _ (n a : ℕ) {r : Ring} (v : IsSound r) (empty : contents r ≡ []) where
  take_preamble :
      (r' : Ring) × (handle preamble (handler mode_preamble r n a)
        ≡ ([], handler mode_header r' n a))
      × IsSound r'
      × (contents r' ≡ [])
  unfolding handle
  take_preamble =
      collect mode_preamble preamble preamble n a [] (λ q. handler mode_header q n a) v
        (omega arith) (ap (λ c. c ++ preamble) empty) refl (omega arith)
        (λ ch q w e.
          handle_one ch [] (handler mode_preamble q n a)
            (handler mode_header (data_clear (write ch q)) n a) none
            (last_of_preamble ch n a w (omega (arith, count_of ch q preamble e)) e))

  take_header :
      (p : Request)
      → (r' : Ring) × (handle (header_of p) (handler mode_header r n a)
          ≡ ([], handler mode_body r' p.size p.action))
        × IsSound r'
        × (contents r' ≡ [])
  unfolding handle
  take_header p =
      let f = λ (q : Ring) (h : List ℕ). handler mode_body q (get_or h 2 0) (get_or h 0 0) in
      collect mode_header (header_of p) (header_of p) n a []
        (λ q. handler mode_body q p.size p.action) v (omega arith)
        (ap (λ c. c ++ header_of p) empty) refl (omega arith)
        (λ ch q w e.
          let k = count_of ch q (header_of p) e in
          handle_one ch [] (handler mode_header q n a)
            (f (data_clear (write ch q)) (contents q ++ (ch ∷ []))) none
            (last_of_header ch n a w (omega (arith, k)) (omega (arith, k)))
          ∙ ap (λ h. ([], f (data_clear (write ch q)) h)) e)

take_body :
    (p : Request) {r : Ring}
    → IsRequest p
    → IsSound r
    → contents r ≡ []
    → (r' : Ring) × (handle p.body (handler mode_body r p.size p.action)
        ≡ (element_of p ∷ [], handler mode_preamble r' p.size p.action))
      × IsSound r'
      × (contents r' ≡ [])
unfolding handle
take_body p {r} (fits, pos, small) v empty =
    collect mode_body p.body p.body p.size p.action (element_of p ∷ [])
      (λ q. handler mode_preamble q p.size p.action) v (omega arith) (ap (λ c. c ++ p.body) empty)
      fits (omega arith)
      (λ ch q w e.
        let k = count_of ch q p.body e in
        let el : List ℕ → List QueueElement =
          λ l. record { action = p.action; size = p.size; data' = l } ∷ [] in
        let h = handler mode_preamble (data_clear (write ch q)) p.size p.action in
        handle_one ch [] (handler mode_body q p.size p.action) h
          (some (record { action = p.action; size = p.size; data' = contents q ++ (ch ∷ []) }))
          (last_of_body ch p.size p.action w (omega (arith, k)) (omega (arith, k)))
        ∙ ap (λ l. (el l, h)) e)

handle_request :
    (p : Request) (n a : ℕ) {r : Ring}
    → IsRequest p
    → IsSound r
    → contents r ≡ []
    → (r' : Ring) × (handle (block_of p) (handler mode_preamble r n a)
        ≡ (element_of p ∷ [], handler mode_preamble r' p.size p.action))
      × IsSound r'
      × (contents r' ≡ [])
handle_request p n a {r} good v empty =
    let (r1, run1, sound1, empty1) = take_preamble n a v empty in
    let (r2, run2, sound2, empty2) = take_header n a sound1 empty1 p in
    let (r3, run3, sound3, empty3) = take_body p good sound2 empty2 in
    (
      r3,
      handle-then preamble (header_of p ++ p.body) (handler mode_preamble r n a)
            (handler mode_header r1 n a) [] run1
          ∙ ap (behind []) (
              handle-then (header_of p) p.body (handler mode_header r1 n a)
                (handler mode_body r2 p.size p.action) [] run2
              ∙ ap (behind []) run3),
      sound3,
      empty3,
    )

abbrev pub stream : List Request → List ℕ
stream [] = []
stream (p ∷ ps) = block_of p ++ stream ps

abbrev pub AllRequests : List Request → Type 0
AllRequests [] = Unit
AllRequests (p ∷ ps) = IsRequest p × AllRequests ps

handle-stream :
    (ps : List Request) (n a : ℕ) {r : Ring}
    → AllRequests ps
    → IsSound r
    → contents r ≡ []
    → (handle (stream ps) (handler mode_preamble r n a)).0 ≡ map element_of ps
unfolding handle
handle-stream [] n a all v empty = refl
handle-stream (p ∷ ps) n a {r} (good, all) v empty =
    let (r1, run1, sound1, empty1) = handle_request p n a good v empty in
    ap (λ q. q.0)
      (handle-then (block_of p) (stream ps) (handler mode_preamble r n a)
        (handler mode_preamble r1 p.size p.action) (element_of p ∷ []) run1)
    ∙ ap (λ l. element_of p ∷ l) (handle-stream ps p.size p.action all sound1 empty1)

-- The requests to transmit.
abbrev pub transmits : List Request → List Request
transmits [] = []
transmits (p ∷ ps) = if p.action == 0 then p ∷ transmits ps else transmits ps

abbrev pub join {ℓ} : {A : Type ℓ} → List (List A) → List A
join [] = []
join (l ∷ ls) = l ++ join ls

-- For each request as many payloads as it takes, which together start with the body.
abbrev pub AllCut : List (List (List ℕ)) → List Request → Type 0
AllCut [] [] = Unit
AllCut [] (p ∷ ps) = ⊥
AllCut (g ∷ gs) [] = ⊥
AllCut (g ∷ gs) (p ∷ ps) =
    (take p.size (join g) ≡ p.body) × (length g ≡ (p.size + 31) / 32) × AllCut gs ps

-- the request as the radio transmitter's own element
abbrev as_packet : Request → RfTransmitterQueueElem
as_packet p = record { addr = 0; tid = 0; size = p.size; data' = p.body }

join-payloads : (q : List PipeQueueElem) → join (map (λ e. e.data') q) ≡ payloads q
join-payloads [] = refl
join-payloads (e ∷ q) = ap (λ l. e.data' ++ l) (join-payloads q)

length-map : (q : List PipeQueueElem) → length (map (λ e. e.data') q) ≡ length q
length-map [] = refl
length-map (e ∷ q) = ap suc (length-map q)

module _ (block : List ℕ) (room : length block ≡ 32) where
  -- the payloads of a request, if it is to transmit
  abbrev group : Request → List (List ℕ)
  group p = map (λ e. e.data') (fragments block (as_packet p))

  abbrev groups : List Request → List (List (List ℕ))
  groups ps = map group (transmits ps)

  group_cut :
      (p : Request)
      → IsRequest p
      → (take p.size (join (group p)) ≡ p.body) × (length (group p) ≡ (p.size + 31) / 32)
  group_cut p (whole, some_body, short) =
      let (count, cut, same) =
        fragments_lem block (as_packet p) room (sym whole) (omega (arith, short)) in
      let q = fragments block (as_packet p) in
      (ap (take p.size) (join-payloads q) ∙ same, length-map q ∙ count)

  groups-AllCut : (ps : List Request) → AllRequests ps → AllCut (groups ps) (transmits ps)
  groups-AllCut [] all = tt
  groups-AllCut (p ∷ ps) (good, all) = elim (Bool-cases (p.action == 0)) [
    | inl sends ↦ rw sends ((group_cut p good).0, (group_cut p good).1, groups-AllCut ps all)
    | inr other ↦ rw other (groups-AllCut ps all)
  ]

  AllRequests-take : (n : ℕ) (ps : List Request) → AllRequests ps → AllRequests (take n ps)
  AllRequests-take zero ps all = tt
  AllRequests-take (suc n) [] all = tt
  AllRequests-take (suc n) (p ∷ ps) (good, all) = (good, AllRequests-take n ps all)

  process_lem :
      (n : ℕ) (ps : List Request) (queue : List (List ℕ))
      → process block n (map element_of ps) queue ≡ queue ++ join (groups (take n ps))
  unfolding process
  process_lem zero ps queue = sym (append-nil queue)
  process_lem (suc n) [] queue = sym (append-nil queue)
  process_lem (suc n) (p ∷ ps) queue = elim (Bool-cases (p.action == 0)) [
    | inl sends ↦ rw sends (
        ap (λ (t : Bool × List (List ℕ)). process block n (map element_of ps) t.1)
          (transmit-fragments block (as_packet p) queue)
        ∙ process_lem n ps (queue ++ group p)
        ∙ append_assoc queue (group p) (join (groups (take n ps))))
    | inr other ↦ rw other (process_lem n ps queue)
  ]

  -- A client's requests with bodies of 1 to 255 bytes, read one behind the other by
  -- SocketHandler_thread from an empty ring. DataProcessor_thread, when it gets to as many of them
  -- as it has rounds before `alive` is cleared, puts on the first queue of the radio, in order, the
  -- payloads of those among them whose action is 0, and nothing else: for each as many payloads as
  -- it takes, which together start with the body. The second and the fourth byte of a header, the
  -- high bytes of its numbers, make no difference; the payloads' blocks have 32 bytes.
  pub requests_lem :
      (rounds : ℕ) (ps : List Request) (queue : List (List ℕ)) (n a : ℕ) {r : Ring}
      → AllRequests ps
      → IsSound r
      → contents r ≡ []
      → (gs : List (List (List ℕ))) × (process block rounds
            (handle (stream ps) (handler mode_preamble r n a)).0
            queue
          ≡ queue ++ join gs)
        × AllCut gs (transmits (take rounds ps))
  requests_lem rounds ps queue n a all v empty = (
    groups (take rounds ps),
    ap (λ es. process block rounds es queue) (handle-stream ps n a all v empty)
        ∙ process_lem rounds ps queue,
    groups-AllCut (take rounds ps) (AllRequests-take rounds ps all),
  )
