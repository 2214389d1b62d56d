-- ===== src/SocketHandler/Tests.antt =====
-- Two requests, of which the first, to transmit 33 bytes, is carried out.
use okto_wsd.Base.{ℕ, ◌≡◌, refl, arith, List, [], ◌∷◌, ◌++◌, take, replicate, length-replicate}
use okto_wsd.SocketHandler.{ring_buffer_size, mode_preamble, handle, process}
use okto_wsd.SocketHandler.Framing.{IsSound, handler}
use okto_wsd.SocketHandler.Stream.{Request, stream, transmits, join, AllCut, requests_lem}
use okto_wsd.Ring.{Ring, data_length}
use okto_wsd.Ring.Window.{contents}

memory : List ℕ
memory = replicate ring_buffer_size 0

abbrev ring : Ring
ring = record { buffer = memory; reader = 0; writer = 0; size = 65355; overflow_politics = 0 }

ring-IsSound : IsSound ring
unfolding memory
ring-IsSound = omega (arith, length-replicate {A = ℕ} ring_buffer_size 0)

ring_empty : contents ring ≡ []
unfolding data_length
ring_empty = refl

abbrev requests : List Request
requests =
    record { action = 0; unread = 9; size = 33; unread' = 7; body = replicate 33 5 }
    ∷ record { action = 1; unread = 0; size = 1; unread' = 0; body = 6 ∷ [] }
    ∷ []

requests_lem_example :
    (gs : List (List (List ℕ))) × (process
        (replicate 32 0)
        1
        (handle (stream requests) (handler mode_preamble ring 0 100)).0
        []
      ≡ [] ++ join gs)
    × AllCut gs (transmits (take 1 requests))
requests_lem_example =
    requests_lem (replicate 32 0) refl 1 requests [] 0 100 (omega arith) ring-IsSound ring_empty
