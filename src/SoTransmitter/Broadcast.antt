-- ===== src/SoTransmitter/Broadcast.antt =====
-- Packets for every client.
use okto_wsd.Base.{
  ℕ, zero, suc, ◌<◌, ◌≤◌, ◌≡◌, refl, ap, ◌∙◌, arith, List, [], ◌∷◌, true, some, length, map,
  take_all,
}
use okto_wsd.Base.Int.{ℤ}
use okto_wsd.Elements.{SoTransmitterQueueElem}
use okto_wsd.Itoa.{Sprintf}
use okto_wsd.Map2.{Key}
use okto_wsd.Map2.Iterator.{has_next, next, iterator_new}
use okto_wsd.Packet.Wsd.{to_binary}
use okto_wsd.Packet.RoundTrip.{IsWsd, wsd_size}
use okto_wsd.SoTransmitter.{packet_of, write_to, write_all, on_element}

pub write_all_lem :
    (fuel : ℕ) (block : List ℕ × ℕ) (m : List (Key × ℕ)) (last : ℤ)
    → length m < fuel
    → write_all fuel block (record { next_node = m; last_ret = last })
      ≡ some (map (λ item. write_to item.1 block) m)
unfolding write_all has_next next
write_all_lem zero block m last h = absurd (omega arith)
write_all_lem (suc fuel) block [] last h = refl
write_all_lem (suc fuel) block ((k, v) ∷ m) last h =
    rw (write_all_lem fuel block m _ (omega arith)) refl

-- The whole block is written, if its size fits the 16-bit count.
pub write_to_lem :
    (junk socket : ℕ) (elem : SoTransmitterQueueElem)
    → IsWsd (packet_of junk elem)
    → elem.size ≤ 65520
    → write_to socket (to_binary (packet_of junk elem))
      ≡ (socket, (to_binary (packet_of junk elem)).0)
write_to_lem junk socket elem v h =
    let whole = wsd_size (packet_of junk elem) v in
    ap (λ bytes. (socket, bytes))
      (take_all (to_binary (packet_of junk elem)).1 (to_binary (packet_of junk elem)).0
        (omega (arith, whole)))

-- An element for all clients is written, as a whole packet, once to the socket of every item of the
-- map of sockets, if its body has at most 65520 bytes; the loop ends within one step more than
-- there are items.
pub broadcast_lem :
    (c : Sprintf) (junk fuel : ℕ) (tid_so_map glob_so_map : List (Key × ℕ))
    (elem : SoTransmitterQueueElem)
    → elem.uniall ≡ true
    → IsWsd (packet_of junk elem)
    → elem.size ≤ 65520
    → length glob_so_map < fuel
    → on_element c junk fuel tid_so_map glob_so_map elem
      ≡ some (map (λ item. (item.1, (to_binary (packet_of junk elem)).0)) glob_so_map)
unfolding on_element iterator_new
broadcast_lem c junk fuel tid_so_map glob_so_map elem all v small enough = rw all (
    write_all_lem fuel (to_binary (packet_of junk elem)) glob_so_map _ enough
    ∙ ap (λ f. some (map f glob_so_map)) (λ i item. write_to_lem junk item.1 elem v small i))
