-- ===== src/GateIn/Transmit.antt =====
-- What comes of a request to transmit.
use okto_wsd.Base.{
  ◌+◌, ◌-◌, ◌%◌, ◌^◌, ◌<◌, ◌≤◌, ◌≡◌, arith, [], ◌∷◌, ◌++◌, Bool, true, some, drop, length,
  length-drop, take_all,
}
use okto_wsd.Elements.{GateInQueueElement}
use okto_wsd.Itoa.{Sprintf}
use okto_wsd.Nrf24.{Device}
use okto_wsd.Packet.Wsd.{wsd_type_transmit}
use okto_wsd.GateIn.{GateIn, on_element, on_transmit, store_tid}
use okto_wsd.GateIn.Blob.{IsBytes, be_at, reverse_bytes-load}

on_transmit_lem :
    (d : Device) (e : GateInQueueElement) (s : GateIn d.Chip)
    → e.size ≡ length e.data'
    → 16 ≤ e.size
    → e.size < 2 ^ 16
    → IsBytes e.data'
    → on_transmit d e s
      ≡ some (record s {
        rf_queue =
            s.rf_queue
            ++ (record {
              addr = be_at e.data' 0;
              tid = be_at e.data' 12;
              size = e.size - 4;
              data' = drop 4 e.data';
            }
                ∷ []);
      })
unfolding on_transmit
on_transmit_lem d e s size low high bytes =
    let small : (e.size + 0x10000 - 4) % 2 ^ 16 ≡ e.size - 4 = omega arith in
    rw
      (
        reverse_bytes-load e.data' 0 bytes,
        reverse_bytes-load e.data' 12 bytes,
        small,
        take_all (e.size - 4) (drop 4 e.data') (omega (arith, length-drop 4 e.data')),
      )
      (ground arith)

-- A request of 16 bytes or more, an address and the front of an ExB packet, becomes one element of
-- the radio's queue: the address and the transaction id of the packet read as big-endian numbers,
-- and the packet without the address. The request is freed; nothing else changes but that its
-- own id, unless it is 0, now leads to its socket.
pub transmit_lem :
    (d : Device) (c : Sprintf) (uniall : Bool) (e : GateInQueueElement) (s : GateIn d.Chip)
    → e.action ≡ wsd_type_transmit
    → e.size ≡ length e.data'
    → 16 ≤ e.size
    → e.size < 2 ^ 16
    → IsBytes e.data'
    → on_element d c uniall e s
      ≡ some (
        record (store_tid c e s) {
          rf_queue =
              s.rf_queue
              ++ (record {
                addr = be_at e.data' 0;
                tid = be_at e.data' 12;
                size = e.size - 4;
                data' = drop 4 e.data';
              }
                  ∷ []);
        },
        true,
      )
unfolding on_element
transmit_lem d c uniall e s act size low high bytes =
    rw (act, on_transmit_lem d e (store_tid c e s) size low high bytes)
      (unfold store_tid in ground arith)
