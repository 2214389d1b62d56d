-- ===== src/System/Mixed.antt =====
-- What the dispatcher gets of clients whose bytes come mixed.
mod Tests
use okto_wsd.Base.{
  ℕ, ◌<◌, ◌≡◌, ◌⊎◌, inl, inr, refl, ap, ap₂, sym, ◌∙◌, ◌==◌, ==_iff, ==_refl, arith, List, [], ◌∷◌,
  ◌++◌, Bool, true, false, Option, none, some, if◌then◌else◌, length, map, Option-cases, Bool-cases,
}
use mathlib.Core.Path.{subst}
use mathlib.Core.List.{append-nil}
use okto_wsd.Elements.{GateInQueueElement}
use okto_wsd.Itoa.{Sprintf}
use okto_wsd.Map2.{Key}
use okto_wsd.Nrf24.{Device}
use okto_wsd.Packet.Wsd.{WsdPacket}
use okto_wsd.SoReceiver
use okto_wsd.SoReceiver.{
  Receiver, Mode, mode_preamble, mode_header, mode_body, on_byte, receive, enqueue,
}
use okto_wsd.SoReceiver.Sound.{hunting}
use okto_wsd.SoReceiver.Runs.{behind, receive-append}
use okto_wsd.SoReceiver.Framing.{AllFramed, element_of, stream, receive-stream}
use okto_wsd.GateIn
use okto_wsd.GateIn.Frame.{front, run-front, run-append}
use okto_wsd.System.{
  Event, from_client, from_radio, System, set_receiver, deliver, dispatch_all, pass_all, step, run,
}
use okto_wsd.System.Items.{IsIdle}
use okto_wsd.System.Any.{IsSafe, ShortIn, run_total}
use okto_wsd.System.Pieces.{queued, after, after-cons, only, sent, queued-stream}

-- no answers waiting for the sockets
abbrev pub answered : {Chip : Type 0} → GateIn.GateIn Chip → GateIn.GateIn Chip
answered g = record g { so_queue = [] }

module _ (d : Device) (c : Sprintf) (uniall : Bool) (junk fuel : ℕ)
    (glob_so_map : List (Key × ℕ)) where
  step-after :
      (e : Event) (s t : System d.Chip)
      → step d c uniall junk fuel glob_so_map e s ≡ some t
      → t.receivers ≡ after (e ∷ []) s.receivers
  unfolding step dispatch_all pass_all
  step-after (from_client j bytes) s t h = ground arith
  step-after (from_radio addr bytes) s t h = ground arith

  run-after :
      (es : List Event) (s t : System d.Chip)
      → run d c uniall junk fuel glob_so_map es s ≡ some t
      → t.receivers ≡ after es s.receivers
  unfolding run
  run-after [] s t h = ground arith
  run-after (e ∷ es) s t h = elim (Option-cases (step d c uniall junk fuel glob_so_map e s)) [
    | inl fault ↦ absurd (ground arith)
    | inr (u, stepped) ↦
        let later : t.receivers ≡ after es u.receivers = run-after es u t (ground arith) in
        later ∙ ap (after es) (step-after e s u stepped) ∙ sym (after-cons e es s.receivers)
  ]

  step_client :
      (j : ℕ) (bytes : List ℕ) (s t : System d.Chip)
      → step d c uniall junk fuel glob_so_map (from_client j bytes) s ≡ some t
      → (g : GateIn.GateIn d.Chip) × (GateIn.run d c uniall
            (receive j bytes (s.receivers j)).0
            s.gate_in
          ≡ some g)
        × (t.gate_in ≡ answered g)
  unfolding step dispatch_all
  step_client j bytes s t h =
      elim (Option-cases (GateIn.run d c uniall (receive j bytes (s.receivers j)).0 s.gate_in)) [
        | inl fault ↦ absurd (ground arith)
        | inr (g, ran) ↦ (g, ran, ground arith)
      ]

  step_radio :
      (addr : ℕ) (bytes : List ℕ) (s t : System d.Chip)
      → step d c uniall junk fuel glob_so_map (from_radio addr bytes) s ≡ some t
      → t.gate_in ≡ s.gate_in
  unfolding step pass_all
  step_radio addr bytes s t h = ground arith

  -- The dispatcher has gone through all that was queued.
  Dispatched : List GateInQueueElement → (g g' : GateIn.GateIn d.Chip) → Type 0
  Dispatched elems g g' =
      (g2 : GateIn.GateIn d.Chip) × (GateIn.run d c uniall elems g ≡ some g2) × (answered g2 ≡ g')

  dispatch-then :
      (elems later : List GateInQueueElement) (g g1 g' : GateIn.GateIn d.Chip)
      → GateIn.run d c uniall elems g ≡ some g1
      → Dispatched later (answered g1) g'
      → Dispatched (elems ++ later) g g'
  unfolding Dispatched
  dispatch-then elems later g g1 g' first (g2, ran, same) =
      let q = g1.so_queue in
      (
        front d c uniall q g2,
        run-append d c uniall elems later g
            ∙ ap (λ o. elim o [ none ↦ none | some t ↦ GateIn.run d c uniall later t ]) first
            ∙ ap (λ l. GateIn.run d c uniall later (record g1 { so_queue = l }))
                (sym (append-nil q))
            ∙ run-front d c uniall q later (answered g1)
            ∙ ap (λ o. elim o [ none ↦ none | some t ↦ some (front d c uniall q t) ]) ran,
        same,
      )

  -- One event before others.
  step-Dispatched :
      (e : Event) (es : List Event) (s u : System d.Chip) (g' : GateIn.GateIn d.Chip)
      → step d c uniall junk fuel glob_so_map e s ≡ some u
      → (u.gate_in ≡ answered u.gate_in → Dispatched (queued es u.receivers) u.gate_in g')
      → s.gate_in ≡ answered s.gate_in
      → Dispatched (queued (e ∷ es) s.receivers) s.gate_in g'
  step-Dispatched (from_client j bytes) es s u g' stepped rest answered_all =
      let (g, ran, at) = step_client j bytes s u stepped in
      dispatch-then (receive j bytes (s.receivers j)).0
        (queued es (set_receiver j (receive j bytes (s.receivers j)).1 s.receivers)) s.gate_in g g'
        ran
        (subst (λ (x : (ℕ → Receiver) × GateIn.GateIn d.Chip). Dispatched (queued es x.0) x.1 g')
          (ap₂ (λ rs b. (rs, b)) (step-after (from_client j bytes) s u stepped) at)
          (rest (at ∙ ap answered (sym at))))
  step-Dispatched (from_radio addr bytes) es s u g' stepped rest answered_all =
      let at = step_radio addr bytes s u stepped in
      subst (λ (x : (ℕ → Receiver) × GateIn.GateIn d.Chip). Dispatched (queued es x.0) x.1 g')
        (ap₂ (λ rs b. (rs, b)) (step-after (from_radio addr bytes) s u stepped) at)
        (rest (at ∙ answered_all ∙ ap answered (sym at)))

  run-Dispatched :
      (es : List Event) (s t : System d.Chip)
      → run d c uniall junk fuel glob_so_map es s ≡ some t
      → s.gate_in ≡ answered s.gate_in
      → Dispatched (queued es s.receivers) s.gate_in t.gate_in
  unfolding run Dispatched GateIn.run
  run-Dispatched [] s t h answered_all = (s.gate_in, refl, sym answered_all ∙ ground arith)
  run-Dispatched (e ∷ es) s t h answered_all =
      elim (Option-cases (step d c uniall junk fuel glob_so_map e s)) [
        | inl fault ↦ absurd (ground arith)
        | inr (u, stepped) ↦
            step-Dispatched e es s u t.gate_in stepped (run-Dispatched es u t (ground arith))
              answered_all
      ]

  -- A client whose thread is between two packets sends whole packets as `receive-stream` takes them,
  -- cut into pieces at any places and mixed with any bytes of other clients and of radios. Of what the
  -- receiving threads put on the dispatcher's queue, the elements of its socket are those of its
  -- packets, all of them and in order. The dispatcher goes through exactly that queue and the
  -- client's thread is between two packets again; or else, on the way, the next bytes of some client
  -- complete a request that announces no body, or one to transmit that announces fewer than 16
  -- bytes, or those of a radio a packet that announces no body. The rings are valid at first and hold
  -- no more than is awaited, no answer waits for a socket, and the fuel exceeds the number of
  -- sockets.
  pub mixed_lem :
      (enough : length glob_so_map < fuel) (k : ℕ) (es : List Event) (s : System d.Chip)
      (ps : List WsdPacket)
      → IsSafe s
      → s.gate_in.so_queue ≡ []
      → IsIdle (s.receivers k)
      → AllFramed ps
      → sent k es ≡ stream ps
      → (only k (queued es s.receivers) ≡ map (element_of k) ps)
        × (((t : System d.Chip) × (g : GateIn.GateIn d.Chip) × (run d c uniall junk fuel glob_so_map
                  es s
                ≡ some t)
              × (GateIn.run d c uniall (queued es s.receivers) s.gate_in ≡ some g)
              × (answered g ≡ t.gate_in)
              × IsIdle (t.receivers k))
            ⊎ ((before after : List Event) × (e : Event) × (t : System d.Chip) × (es
                  ≡ before ++ (e ∷ after))
                × (run d c uniall junk fuel glob_so_map before s ≡ some t)
                × IsSafe t
                × ShortIn d c uniall junk fuel glob_so_map enough e t))
  unfolding Dispatched
  mixed_lem enough k es s ps safe nothing idle all whole =
      let (mine, idle') = queued-stream k es s.receivers ps idle all whole in
      (
        mine,
        elim (run_total d c uniall junk fuel glob_so_map enough es s safe) [
          | inr short ↦ inr short
          | inl (t, ran, safe') ↦
              let (g, dispatched, same) =
                run-Dispatched es s t ran (ap (λ l. record s.gate_in { so_queue = l }) nothing) in
              inl (
                t,
                g,
                ran,
                dispatched,
                same,
                subst (λ rs. IsIdle (rs k)) (sym (run-after es s t ran)) idle',
              )
        ],
      )
