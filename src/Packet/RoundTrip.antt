-- ===== src/Packet/RoundTrip.antt =====
-- The wire format of both packets, and what is left of a header that is written and parsed.
use okto_wsd.Base.{
  ℕ, ◌+◌, ◌*◌, ◌/◌, ◌%◌, ◌^◌, ◌<◌, ◌≤◌, ◌≡◌, ◌↔◌, refl, List, [], ◌∷◌, ◌++◌, arith, length, take,
  drop, length-take,
}
use okto_wsd.Packet.Fields.{
  top_byte, third_byte, second_byte, low_byte, tid_of_bytes, length_of_bytes,
}
use okto_wsd.Packet.Wsd
use okto_wsd.Packet.Wsd.{WsdPacket, wsd_preamble, wsd_preamble_r, wsd_preamble_size}
use okto_wsd.Packet.Exb
use okto_wsd.Packet.Exb.{ExbPacket, exb_preamble, exb_preamble_r, exb_preamble_size}

-- A 32-bit and a 16-bit number, the most significant byte first.
abbrev pub be32 : ℕ → List ℕ
be32 x = x / 0x1000000 % 256 ∷ x / 0x10000 % 256 ∷ x / 0x100 % 256 ∷ x % 256 ∷ []

abbrev pub be16 : ℕ → List ℕ
be16 x = x / 0x100 % 256 ∷ x % 256 ∷ []

-- The seven bytes behind the preamble.
abbrev pub header : (tid type length : ℕ) → List ℕ
header tid type length = be32 tid ++ (type % 256 ∷ be16 length)

-- What the parsers read for a transaction id: bits 24 to 30 move up by one, bit 31 is lost.
abbrev pub skewed : ℕ → ℕ
skewed tid = tid / 0x1000000 % 128 * 0x2000000 + tid % 0x1000000

-- It is the id that was sent exactly when the id is below 2 ^ 24.
pub skewed_eq_iff : (tid : ℕ) → tid < 2 ^ 32 → (skewed tid ≡ tid) ↔ (tid < 2 ^ 24)
skewed_eq_iff tid h = ground arith

pub skewed-lt : (tid : ℕ) → skewed tid < 2 ^ 32
skewed-lt tid = omega arith

-- A packet whose fields fit their C types and whose body is there in full.
pub record IsWsd (p : WsdPacket) : Type 0 where
  pub tid_fits : p.tid < 2 ^ 32
  pub type_fits : p.type < 2 ^ 8
  pub length_fits : p.length < 2 ^ 16
  pub body_there : p.length ≡ length p.body

pub record IsExb (p : ExbPacket) : Type 0 where
  pub tid_fits : p.tid < 2 ^ 32
  pub type_fits : p.type < 2 ^ 8
  pub length_fits : p.length < 2 ^ 16
  pub body_there : p.length ≡ length p.body

-- The block is the preamble, the header and the body.
pub wsd_wire :
    (p : WsdPacket)
    → (Wsd.to_binary p).0 ≡ wsd_preamble_r ++ (header p.tid p.type p.length ++ take p.length p.body)
unfolding Wsd.to_binary
wsd_wire p = rw (
  top_byte p.tid,
  third_byte p.tid,
  second_byte p.tid,
  second_byte p.length,
  low_byte p.tid,
  low_byte p.length,
)

-- The parser reads back what fits, but for the skew of the id.
pub wsd_parse-header :
    (q : WsdPacket) (tid type length : ℕ) (rest : List ℕ)
    → type < 2 ^ 8
    → length < 2 ^ 16
    → Wsd.parse_packet_header q (header tid type length ++ rest)
      ≡ record q { preamble = wsd_preamble; tid = skewed tid; type = type; length = length }
unfolding Wsd.parse_packet_header
wsd_parse-header q tid type length rest ht hl = ground (
  arith,
  tid_of_bytes (tid / 0x1000000 % 256) (tid / 0x10000 % 256) (tid / 0x100 % 256) (tid % 256),
  length_of_bytes (length / 0x100 % 256) (length % 256),
)

-- Writing a packet whose fields fit and parsing the block behind the preamble gives its type and
-- its length back, and its transaction id exactly when that is below 2 ^ 24.
pub wsd_round_trip :
    (p q : WsdPacket)
    → IsWsd p
    → let r = Wsd.parse_packet_header q (drop wsd_preamble_size (Wsd.to_binary p).0) in
      (r.type ≡ p.type) × (r.length ≡ p.length) × ((r.tid ≡ p.tid) ↔ (p.tid < 2 ^ 24))
wsd_round_trip p q v = rw (wsd_wire p) (
    rw (wsd_parse-header q p.tid p.type p.length (take p.length p.body) v.type_fits v.length_fits)
      (refl, refl, skewed_eq_iff p.tid v.tid_fits))

-- The block of such a packet has 15 bytes and its body, which the allocated `28 + length` bytes
-- hold, and the returned size is the number of its bytes exactly when that is below 2 ^ 16.
pub wsd_size :
    (p : WsdPacket)
    → IsWsd p
    → let (bin, size) = Wsd.to_binary p in
      (length bin ≡ 15 + p.length)
      × (length bin ≤ 28 + p.length)
      × ((size ≡ length bin) ↔ (15 + p.length < 2 ^ 16))
unfolding Wsd.to_binary
wsd_size p v = ground (arith, length-take p.length p.body)

-- The block is the preamble, the header and the body.
pub exb_wire :
    (p : ExbPacket)
    → (Exb.to_binary p).0 ≡ exb_preamble_r ++ (header p.tid p.type p.length ++ take p.length p.body)
unfolding Exb.to_binary
exb_wire p = rw (
  top_byte p.tid,
  third_byte p.tid,
  second_byte p.tid,
  second_byte p.length,
  low_byte p.tid,
  low_byte p.length,
)

-- The parser reads back what fits, but for the skew of the id.
pub exb_parse-header :
    (q : ExbPacket) (tid type length : ℕ) (rest : List ℕ)
    → type < 2 ^ 8
    → length < 2 ^ 16
    → Exb.parse_packet_header q (header tid type length ++ rest)
      ≡ record q { preamble = exb_preamble; tid = skewed tid; type = type; length = length }
unfolding Exb.parse_packet_header
exb_parse-header q tid type length rest ht hl = ground (
  arith,
  tid_of_bytes (tid / 0x1000000 % 256) (tid / 0x10000 % 256) (tid / 0x100 % 256) (tid % 256),
  length_of_bytes (length / 0x100 % 256) (length % 256),
)

-- Writing a packet whose fields fit and parsing the block behind the preamble gives its type and
-- its length back, and its transaction id exactly when that is below 2 ^ 24.
pub exb_round_trip :
    (p q : ExbPacket)
    → IsExb p
    → let r = Exb.parse_packet_header q (drop exb_preamble_size (Exb.to_binary p).0) in
      (r.type ≡ p.type) × (r.length ≡ p.length) × ((r.tid ≡ p.tid) ↔ (p.tid < 2 ^ 24))
exb_round_trip p q v = rw (exb_wire p) (
    rw (exb_parse-header q p.tid p.type p.length (take p.length p.body) v.type_fits v.length_fits)
      (refl, refl, skewed_eq_iff p.tid v.tid_fits))

-- The block of such a packet has 15 bytes and its body, which the allocated `28 + length` bytes
-- hold, and the returned size is the number of its bytes exactly when that is below 2 ^ 16.
pub exb_size :
    (p : ExbPacket)
    → IsExb p
    → let (bin, size) = Exb.to_binary p in
      (length bin ≡ 15 + p.length)
      × (length bin ≤ 28 + p.length)
      × ((size ≡ length bin) ↔ (15 + p.length < 2 ^ 16))
unfolding Exb.to_binary
exb_size p v = ground (arith, length-take p.length p.body)
