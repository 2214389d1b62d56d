-- ===== src/SoReceiver/Sound.antt =====
-- The ring of the receiving thread, and the thread's variables in each mode.
use okto_wsd.Base.{
  ℕ, suc, ◌<◌, ◌≡◌, ap, ◌∙◌, sym, arith, List, [], ◌∷◌, ◌++◌, length, length-append,
}
use okto_wsd.Packet.Wsd.{WsdPacket}
use okto_wsd.Ring.{Ring, write, data_length, data_clear}
use okto_wsd.Ring.Inv.{IsValid, write-IsValid}
use okto_wsd.Ring.Window.{contents, length-contents}
use okto_wsd.Ring.Refine.{contents-write_room, size-write}
use okto_wsd.SoReceiver.{mode_preamble, mode_header, mode_body, Receiver, ring_buffer_size}

-- The ring of a receiver, valid and of the thread's size.
pub record IsSound (r : Ring) : Type 0 where
  pub valid : IsValid r
  pub size : r.size ≡ ring_buffer_size

pub write-IsSound : (ch : ℕ) {r : Ring} → IsSound r → IsSound (write ch r)
write-IsSound ch {r} v = record {
  valid = write-IsValid r ch v.valid;
  size = size-write r ch ∙ v.size;
}

pub data_clear-IsSound : {r : Ring} → IsSound r → IsSound (data_clear r)
unfolding data_clear
data_clear-IsSound {r} v = omega arith

-- A receiver in each of its modes.
abbrev pub hunting : Ring → WsdPacket → ℕ → Receiver
hunting r p n = record { in_buf = r; mode = mode_preamble; packet = p; sbody = n }

abbrev pub heading : Ring → WsdPacket → ℕ → Receiver
heading r p n = record { in_buf = r; mode = mode_header; packet = p; sbody = n }

abbrev pub filling : Ring → WsdPacket → ℕ → Receiver
filling r p n = record { in_buf = r; mode = mode_body; packet = p; sbody = n }

-- What a byte does to a ring with room for it.
module _ {r : Ring} (ch : ℕ) (v : IsValid r) (room : suc (length (contents r)) < r.size) where
  pub contents_step : contents (write ch r) ≡ contents r ++ (ch ∷ [])
  contents_step = (contents-write_room r ch v (omega (arith, length-contents r))).0

  pub reader_step : (write ch r).reader ≡ r.reader
  reader_step = (contents-write_room r ch v (omega (arith, length-contents r))).1

  pub length_step : data_length (write ch r) ≡ suc (length (contents r))
  length_step =
      sym (length-contents (write ch r))
      ∙ ap length contents_step
      ∙ length-append (contents r) (ch ∷ [])
      ∙ omega arith

-- What the ring of a receiver has become when some bytes were put behind what it held.
pub record Extended (r : Ring) (bytes : List ℕ) (r' : Ring) : Type 0 where
  pub sound : IsSound r'
  pub held : contents r' ≡ contents r ++ bytes
  pub reader : r'.reader ≡ r.reader

pub grown : (c : List ℕ) (b : ℕ) → length (c ++ (b ∷ [])) ≡ suc (length c)
grown c b = omega (arith, length-append c (b ∷ []))
