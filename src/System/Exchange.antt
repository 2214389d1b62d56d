-- ===== src/System/Exchange.antt =====
-- Clients that ask and radios that answer, in any order.
use okto_wsd.Base.{
  ℕ, ◌<◌, ◌≡◌, refl, ap, sym, ◌∙◌, arith, List, [], ◌∷◌, ◌++◌, false, Option, some, length, map,
}
use mathlib.Core.List.{append-nil, append_assoc}
use okto_wsd.Itoa.{Sprintf}
use okto_wsd.Map2.{Key}
use okto_wsd.Nrf24.{Device}
use okto_wsd.System.{Event, System, step, run}
use okto_wsd.System.Steps.{IsReady, step_ask, step_set, step_answer}
use okto_wsd.System.Matrix.{reply_writes}
use okto_wsd.System.Items.{
  Item, sets, set_by_all, asks, answers, event_of, AllGood, asked, writes, got, for_radio,
  rf_element,
}

module _ (d : Device) (c : Sprintf) (junk fuel : ℕ) (glob_so_map : List (Key × ℕ)) where
  run_cons :
      (e : Event) (es : List Event) (s t u : System d.Chip)
      → step d c false junk fuel glob_so_map e s ≡ some t
      → run d c false junk fuel glob_so_map es t ≡ some u
      → run d c false junk fuel glob_so_map (e ∷ es) s ≡ some u
  unfolding run
  run_cons e es s t u h k = ground (arith, h, k)

  -- Clients' requests and radios' packets for clients, whole and in any order, go through all the
  -- threads without a fault, from any state where the threads wait between packets, whatever the
  -- ring of the assembler holds. The queue of the radio gets the packets of the requests to
  -- transmit, in order, with their addresses. The addresses of the pipes are those of the last
  -- matrix that was accepted. The sockets get, in order, what the radios sent, with the sender in
  -- front, and an answer for each matrix: a result, or the number of the error. An event goes once
  -- to every registered socket, all else to the socket that its id leads to, and to nobody if it
  -- leads to none; a request with an id other than 0 makes the id lead to its socket. Ids are below
  -- 2 ^ 24, requests to transmit have 16 to 65534 bytes, matrices 1 to 65534, radio packets a body
  -- of 1 to 240 and fewer than 32 bytes with no preamble behind it; the registers of a chip that is
  -- given a matrix keep what is written, `malloc` gives all the bytes asked for and leaves 0 in
  -- `uniall`, and the fuel exceeds the number of sockets.
  pub exchange_lem :
      (items : List Item) (s : System d.Chip) (owner : ℕ → Option ℕ)
      → length glob_so_map < fuel
      → AllGood d items
      → IsReady d c junk fuel glob_so_map s owner
      → (s' : System d.Chip) × (run d c false junk fuel glob_so_map (map event_of items) s
          ≡ some s')
        × (s'.written ≡ s.written ++ got junk (d.junk 1) glob_so_map items owner)
        × (s'.gate_in.rf_queue ≡ s.gate_in.rf_queue ++ for_radio items)
        × (s'.gate_in.pipes ≡ set_by_all items s.gate_in.pipes)
  unfolding run
  exchange_lem [] s owner enough good ready =
      (s, refl, sym (append-nil s.written), sym (append-nil s.gate_in.rf_queue), refl)
  exchange_lem (asks socket p ∷ items) s owner enough (good, rest) ready =
      let (t, stepped, ready', same, more, kept) =
        step_ask d c junk fuel glob_so_map socket p s owner good ready in
      let (u, ran, written, queued, held) =
        exchange_lem items t (asked (asks socket p) owner) enough rest ready' in
      (
        u,
        run_cons (event_of (asks socket p)) (map event_of items) s t u stepped ran,
        written
            ∙ ap (λ l. l ++ got junk (d.junk 1) glob_so_map items (asked (asks socket p) owner))
                same,
        queued
            ∙ ap (λ l. l ++ for_radio items) more
            ∙ append_assoc s.gate_in.rf_queue (rf_element p ∷ []) (for_radio items),
        held ∙ ap (set_by_all items) kept,
      )
  exchange_lem (sets socket p v ∷ items) s owner enough (good, rest) ready =
      let owner' = asked (sets socket p v) owner in
      let (t, stepped, ready', more, same, kept) =
        step_set d c junk fuel glob_so_map socket p v s owner good ready in
      let (u, ran, written, queued, held) = exchange_lem items t owner' enough rest ready' in
      (
        u,
        run_cons (event_of (sets socket p v)) (map event_of items) s t u stepped ran,
        written
            ∙ ap (λ l. l ++ got junk (d.junk 1) glob_so_map items owner') more
            ∙ append_assoc s.written (reply_writes d c junk fuel glob_so_map p v (owner' p.tid))
                (got junk (d.junk 1) glob_so_map items owner'),
        queued ∙ ap (λ l. l ++ for_radio items) same,
        held ∙ ap (set_by_all items) kept,
      )
  exchange_lem (answers addr p padding ∷ items) s owner enough ((good, few, still), rest) ready =
      let (t, stepped, ready', more, same, kept) =
        step_answer d c junk fuel glob_so_map addr p padding s owner good few still enough ready in
      let (u, ran, written, queued, held) = exchange_lem items t owner enough rest ready' in
      (
        u,
        run_cons (event_of (answers addr p padding)) (map event_of items) s t u stepped ran,
        written
            ∙ ap (λ l. l ++ got junk (d.junk 1) glob_so_map items owner) more
            ∙ append_assoc s.written (writes junk glob_so_map addr p (owner p.tid))
                (got junk (d.junk 1) glob_so_map items owner),
        queued ∙ ap (λ l. l ++ for_radio items) same,
        held ∙ ap (set_by_all items) kept,
      )
