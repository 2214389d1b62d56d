-- ===== src/GateIn/Frame.antt =====
-- What is on the way to the sockets makes no difference to the dispatcher.
use okto_wsd.Base.{◌≡◌, refl, arith, List, [], ◌∷◌, ◌++◌, Bool, none, some, Option-cases, inl, inr}
use mathlib.Core.List.{append_assoc}
use okto_wsd.Elements.{GateInQueueElement, SoTransmitterQueueElem}
use okto_wsd.Itoa.{Sprintf}
use okto_wsd.Nrf24.{Device}
use okto_wsd.GateIn.{
  GateIn, store_tid, on_transmit, on_matrix, on_element, run, complete_error, complete_empty_result,
  error_broken_pipe_matrix, error_bad_pipe_msb, error_chip_not_respond,
}

module _ (d : Device) (c : Sprintf) (uniall : Bool) (q : List SoTransmitterQueueElem) where
  -- the state with more in front on the queue to the sockets
  abbrev pub front : GateIn d.Chip → GateIn d.Chip
  front g = record g { so_queue = q ++ g.so_queue }

  store_tid-front :
      (e : GateInQueueElement) (g : GateIn d.Chip)
      → store_tid c e (front g) ≡ front (store_tid c e g)
  unfolding store_tid
  store_tid-front e g = ground arith

  on_transmit-front :
      (e : GateInQueueElement) (g : GateIn d.Chip)
      → on_transmit d e (front g)
        ≡ elim (on_transmit d e g) [ none ↦ none | some t ↦ some (front t) ]
  unfolding on_transmit
  on_transmit-front e g = ground arith

  on_matrix-front :
      (e : GateInQueueElement) (g : GateIn d.Chip)
      → on_matrix d uniall e (front g)
        ≡ (front (on_matrix d uniall e g).0, (on_matrix d uniall e g).1)
  unfolding on_matrix
  on_matrix-front e g =
      let more = λ (r : SoTransmitterQueueElem). append_assoc q g.so_queue (r ∷ []) in
      ground (
        arith,
        more (complete_error uniall error_broken_pipe_matrix e.tid),
        more (complete_error uniall error_bad_pipe_msb e.tid),
        more (complete_error uniall error_chip_not_respond e.tid),
        more (complete_empty_result uniall (d.junk 1) e.tid),
      )

  on_element-front :
      (e : GateInQueueElement) (g : GateIn d.Chip)
      → on_element d c uniall e (front g)
        ≡ elim (on_element d c uniall e g) [ none ↦ none | some (t, freed) ↦ some (front t, freed) ]
  unfolding on_element
  on_element-front e g = ground (
    arith,
    store_tid-front e g,
    on_transmit-front e (store_tid c e g),
    on_matrix-front e (store_tid c e g),
  )

  pub run-front :
      (es : List GateInQueueElement) (g : GateIn d.Chip)
      → run d c uniall es (front g)
        ≡ elim (run d c uniall es g) [ none ↦ none | some t ↦ some (front t) ]
  unfolding run
  run-front [] g = refl
  run-front (e ∷ es) g = elim (Option-cases (on_element d c uniall e g)) [
    | inl fault ↦ ground (arith, on_element-front e g)
    | inr ((t, freed), done) ↦ ground (arith, on_element-front e g, run-front es t)
  ]

module _ (d : Device) (c : Sprintf) (uniall : Bool) where
  pub run-append :
      (es later : List GateInQueueElement) (g : GateIn d.Chip)
      → run d c uniall (es ++ later) g
        ≡ elim (run d c uniall es g) [ none ↦ none | some t ↦ run d c uniall later t ]
  unfolding run
  run-append [] later g = refl
  run-append (e ∷ es) later g = elim (Option-cases (on_element d c uniall e g)) [
    | inl fault ↦ ground arith
    | inr ((t, freed), done) ↦ ground (arith, run-append es later t)
  ]
