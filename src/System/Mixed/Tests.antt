-- ===== src/System/Mixed/Tests.antt =====
-- A client's two requests in three pieces, with bytes of another client and of a radio in between.
use okto_wsd.Base.{ℕ, ◌≡◌, ◌⊎◌, refl, arith, List, [], ◌∷◌, ◌++◌, false, some, take, drop, map}
use okto_wsd.Itoa.{decimal}
use okto_wsd.GateIn
use okto_wsd.GateIn.Keeping.{keeping}
use okto_wsd.Packet.Wsd
use okto_wsd.Packet.Wsd.{WsdPacket}
use okto_wsd.SoReceiver.Framing.{element_of}
use okto_wsd.System.{Event, from_client, from_radio, System, run}
use okto_wsd.System.Items.{IsIdle}
use okto_wsd.System.Rest.{ask, at_rest, sockets, at_rest-IsReady, at_rest-IsSafe}
use okto_wsd.System.Any.{IsSafe, ShortIn}
use okto_wsd.System.Pieces.{queued, only}
use okto_wsd.System.Mixed.{answered, mixed_lem}

abbrev asked : List WsdPacket
asked = ask 12 ∷ ask 13 ∷ []

abbrev pieces : List Event
pieces =
    from_client 4 (take 9 (Wsd.to_binary (ask 12)).0)
    ∷ from_radio 7 (0x3b ∷ 0xaa ∷ 0 ∷ [])
    ∷ from_client 6 (1 ∷ 2 ∷ 3 ∷ [])
    ∷ from_client 4 (drop 9 (Wsd.to_binary (ask 12)).0 ++ take 20 (Wsd.to_binary (ask 13)).0)
    ∷ from_client 6 (0x3f ∷ 0xaa ∷ [])
    ∷ from_client 4 (drop 20 (Wsd.to_binary (ask 13)).0)
    ∷ []

mixed_lem_example :
    (only 4 (queued pieces at_rest.receivers) ≡ map (element_of 4) asked)
    × (((t : System (ℕ → List ℕ)) × (g : GateIn.GateIn (ℕ → List ℕ)) × (run keeping decimal false 0
              3 sockets pieces at_rest
            ≡ some t)
          × (GateIn.run keeping decimal false (queued pieces at_rest.receivers) at_rest.gate_in
              ≡ some g)
          × (answered g ≡ t.gate_in)
          × IsIdle (t.receivers 4))
        ⊎ ((before after : List Event) × (e : Event) × (t : System (ℕ → List ℕ)) × (pieces
              ≡ before ++ (e ∷ after))
            × (run keeping decimal false 0 3 sockets before at_rest ≡ some t)
            × IsSafe t
            × ShortIn keeping decimal false 0 3 sockets (omega arith) e t))
unfolding Wsd.to_binary
mixed_lem_example =
    mixed_lem keeping decimal false 0 3 sockets (omega arith) 4 pieces at_rest asked at_rest-IsSafe
      refl (at_rest-IsReady.idle 4)
      (omega arith, omega arith, omega arith, (omega arith, omega arith, omega arith, tt)) refl
