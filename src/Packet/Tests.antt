-- ===== src/Packet/Tests.antt =====
-- The packet formats at concrete packets.
use okto_wsd.Base.{◌^◌, ◌<◌, ◌≤◌, ◌≡◌, ◌↔◌, refl, arith, [], ◌∷◌, length, drop}
use okto_wsd.Packet.Wsd
use okto_wsd.Packet.Wsd.{WsdPacket}
use okto_wsd.Packet.Exb
use okto_wsd.Packet.Exb.{ExbPacket}
use okto_wsd.Packet.RoundTrip.{IsWsd, IsExb, wsd_round_trip, exb_round_trip, wsd_size}

abbrev sample : WsdPacket
sample = record { preamble = 0; tid = 0x01020304; type = 3; length = 2; body = 7 ∷ 8 ∷ [] }

abbrev beacon : ExbPacket
beacon = record { preamble = 0; tid = 9; type = 6; length = 1; body = 5 ∷ [] }

sample_block : Wsd.to_binary sample ≡ (
  0x3f ∷ 0xaa ∷ 0xaa ∷ 0xaa ∷ 0xaa ∷ 0xaa ∷ 0xaa ∷ 0xaa ∷ 1 ∷ 2 ∷ 3 ∷ 4 ∷ 3 ∷ 0 ∷ 2 ∷ 7 ∷ 8 ∷ [],
  17,
)
unfolding Wsd.to_binary
sample_block = refl

-- The id comes back with its first byte doubled.
sample_parsed : (Wsd.parse_packet_header sample (1 ∷ 2 ∷ 3 ∷ 4 ∷ 3 ∷ 0 ∷ 2 ∷ [])).tid ≡ 0x02020304
unfolding Wsd.parse_packet_header
sample_parsed = refl

sample-IsWsd : IsWsd sample
sample-IsWsd = omega arith

beacon-IsExb : IsExb beacon
beacon-IsExb = omega arith

wsd_round_trip_example :
    let r = Wsd.parse_packet_header sample (drop 8 (Wsd.to_binary sample).0) in
    (r.type ≡ 3) × (r.length ≡ 2) × ((r.tid ≡ 0x01020304) ↔ (0x01020304 < 2 ^ 24))
wsd_round_trip_example = wsd_round_trip sample sample sample-IsWsd

exb_round_trip_example :
    let r = Exb.parse_packet_header beacon (drop 8 (Exb.to_binary beacon).0) in
    (r.type ≡ 6) × (r.length ≡ 1) × ((r.tid ≡ 9) ↔ (9 < 2 ^ 24))
exb_round_trip_example = exb_round_trip beacon beacon beacon-IsExb

wsd_size_example :
    let (bin, size) = Wsd.to_binary sample in
    (length bin ≡ 17) × (length bin ≤ 30) × ((size ≡ length bin) ↔ (17 < 2 ^ 16))
wsd_size_example = wsd_size sample sample-IsWsd
