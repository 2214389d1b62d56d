-- ===== src/SoReceiver/Stuck.antt =====
-- A length that the ring cannot hold.
use okto_wsd.Base.{ℕ, ◌≤◌, ◌<◌, ◌≡◌, refl, ◌∙◌, arith, List, [], ◌∷◌, none, leb-false}
use okto_wsd.Packet.Wsd.{WsdPacket}
use okto_wsd.Ring.{Ring, write, data_length}
use okto_wsd.Ring.Inv.{data_length-lt}
use okto_wsd.SoReceiver.{receive, on_byte, dispatch, in_body, ring_buffer_size}
use okto_wsd.SoReceiver.Runs.{receive_silent}
use okto_wsd.SoReceiver.Sound.{IsSound, write-IsSound, filling}

-- A header that announces 65535 bytes or more stops the thread's parsing for good: in MODE_BODY
-- with such a count no bytes, however many, put anything on the queue or change the mode.
pub receive_stuck :
    (socket : ℕ) (p : WsdPacket) (n : ℕ) (bs : List ℕ) {r : Ring}
    → IsSound r
    → ring_buffer_size ≤ n
    → (r' : Ring) × (receive socket bs (filling r p n) ≡ ([], filling r' p n)) × IsSound r'
unfolding receive
receive_stuck socket p n [] {r} v big = (r, refl, v)
receive_stuck socket p n (b ∷ bs) {r} v big =
    let v' = write-IsSound b v in
    let (r', run, sound) = receive_stuck socket p n bs v' big in
    (
      r',
      receive_silent socket b bs (filling r p n) (filling (write b r) p n)
            (ignored (omega (arith, data_length-lt (write b r) v'.valid, v'.size)))
          ∙ run,
      sound,
    )
  where
    ignored :
        data_length (write b r) < n
        → on_byte socket b (filling r p n) ≡ (none, filling (write b r) p n)
    ignored few = unfold on_byte dispatch in_body in rw (leb-false n (data_length (write b r)) few)
