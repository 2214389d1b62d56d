-- ===== src/SoTransmitter/Reply.antt =====
-- Answers: they go to the client whose request last had the id.
use okto_wsd.Base.{
  ℕ, ◌<◌, ◌≤◌, ◌^◌, ◌≡◌, sym, ap, ◌∙◌, arith, List, [], ◌∷◌, Bool, false, ◌&&◌, Option, some, none,
  if◌then◌else◌, ◌==◌, ltb, ==_refl, ==_false, inl, inr, Bool-cases, Option-cases, eq_cases,
}
use okto_wsd.Elements.{GateInQueueElement, SoTransmitterQueueElem}
use okto_wsd.Itoa.{Sprintf, itoa2, itoa2_injective}
use okto_wsd.Map2.{Key, str_eq, get}
use okto_wsd.Map2.Laws.{str_eq_refl, eq_of_str_eq, get-add}
use okto_wsd.Nrf24.{Device}
use okto_wsd.Packet.Wsd.{to_binary}
use okto_wsd.Packet.RoundTrip.{IsWsd}
use okto_wsd.GateIn
use okto_wsd.GateIn.{GateIn, store_tid}
use okto_wsd.SoTransmitter.{packet_of, on_element}
use okto_wsd.SoTransmitter.Broadcast.{write_to_lem}

-- The socket of the last of the requests with an id, if the id is not 0, and otherwise what was
-- known before.
abbrev pub newest : ℕ → List GateInQueueElement → Option ℕ → Option ℕ
newest tid [] old = old
newest tid (e ∷ es) old =
    newest tid es (if ltb 0 e.tid && (e.tid == tid) then some e.socket else old)

-- The ids are 32-bit numbers.
abbrev pub IsFit : List GateInQueueElement → Type 0
IsFit [] = Unit
IsFit (e ∷ es) = (e.tid < 2 ^ 32) × IsFit es

module _ (c : Sprintf) where
  str_eq-itoa2 : (m n : ℕ) → m < 2 ^ 32 → n < 2 ^ 32 → str_eq (itoa2 c m) (itoa2 c n) ≡ (m == n)
  str_eq-itoa2 m n p q = elim (eq_cases m n) [
    | inl same ↦ rw same (str_eq_refl (itoa2 c n) ∙ sym (==_refl n))
    | inr other ↦ elim (Bool-cases (str_eq (itoa2 c m) (itoa2 c n))) [
      | inl same ↦
          absurd (other (itoa2_injective c m n p q (eq_of_str_eq (itoa2 c m) (itoa2 c n) same)))
      | inr differ ↦ differ ∙ sym (==_false m n other)
    ]
  ]

  pub get-store_tid :
      {Chip : Type 0} (tid : ℕ) (e : GateInQueueElement) (s : GateIn Chip)
      → tid < 2 ^ 32
      → e.tid < 2 ^ 32
      → get (itoa2 c tid) (store_tid c e s).tid_so_map
        ≡ (if ltb 0 e.tid && (e.tid == tid) then some e.socket else get (itoa2 c tid) s.tid_so_map)
  unfolding store_tid
  get-store_tid tid e s p q = ground (
    arith,
    get-add (itoa2 c e.tid) (itoa2 c tid) e.socket s.tid_so_map,
    str_eq-itoa2 e.tid tid q p,
  )

  module _ (d : Device) (uniall : Bool) where
    on_element-store_tid :
        (e : GateInQueueElement) (s t : GateIn d.Chip) (freed : Bool)
        → GateIn.on_element d c uniall e s ≡ some (t, freed)
        → t.tid_so_map ≡ (store_tid c e s).tid_so_map
    unfolding GateIn.on_element GateIn.on_matrix GateIn.on_transmit
    on_element-store_tid e s t freed h = ground (arith, h)

    get-run :
        (tid : ℕ) (es : List GateInQueueElement) (s t : GateIn d.Chip)
        → tid < 2 ^ 32
        → IsFit es
        → GateIn.run d c uniall es s ≡ some t
        → get (itoa2 c tid) t.tid_so_map ≡ newest tid es (get (itoa2 c tid) s.tid_so_map)
    unfolding GateIn.run
    get-run tid [] s t p fit h = ground (arith, h)
    get-run tid (e ∷ es) s t p (q, fit) h = elim (Option-cases (GateIn.on_element d c uniall e s)) [
      | inl stuck ↦ absurd (ground (arith, h))
      | inr ((u, freed), eq) ↦
          get-run tid es u t p fit (ground (arith, h))
          ∙ ap (newest tid es) (
              ap (get (itoa2 c tid)) (on_element-store_tid e s u freed eq)
              ∙ get-store_tid tid e s p q)
    ]

    -- Once a sequence of requests has gone through `GateIn_thread` from an empty map, an element
    -- that is not for all clients is written, as a whole packet, to the socket of the last
    -- request with its id, and nowhere else; without such a request, or for the id 0,
    -- nothing is written. Its fields fit their types and its body has at most 65520 bytes.
    pub reply_lem :
        (requests : List GateInQueueElement) (s t : GateIn d.Chip) (junk fuel : ℕ)
        (glob_so_map : List (Key × ℕ)) (elem : SoTransmitterQueueElem)
        → s.tid_so_map ≡ []
        → IsFit requests
        → GateIn.run d c uniall requests s ≡ some t
        → elem.uniall ≡ false
        → IsWsd (packet_of junk elem)
        → elem.size ≤ 65520
        → on_element c junk fuel t.tid_so_map glob_so_map elem
          ≡ elim (newest elem.tid requests none) [
            | none ↦ some []
            | some socket ↦ some ((socket, (to_binary (packet_of junk elem)).0) ∷ [])
          ]
    unfolding on_element get
    reply_lem requests s t junk fuel glob_so_map elem empty fit ran one v small =
        let found : get (itoa2 c elem.tid) t.tid_so_map ≡ newest elem.tid requests none =
          get-run elem.tid requests s t v.tid_fits fit ran
          ∙ ap (λ m. newest elem.tid requests (get (itoa2 c elem.tid) m)) empty in
        elim (Option-cases (newest elem.tid requests none)) [
          | inl nobody ↦ ground (arith, found)
          | inr (socket, somebody) ↦ ground (arith, found, write_to_lem junk socket elem v small)
        ]
