-- ===== src/Packet/Exb.antt =====
-- exb_packet.c and include/exb_packet.h: the packets sent by radio.
use okto_wsd.Base.{ℕ, ◌+◌, List, [], ◌∷◌, get_or, take}
use okto_wsd.Base.Word.{u8, u16, u32, ◌&&&◌, ◌|||◌, ◌<<<◌, ◌>>>◌}

abbrev pub exb_preamble_size : ℕ
exb_preamble_size = 8

abbrev pub exb_header_size : ℕ
exb_header_size = 7

abbrev pub exb_preamble : ℕ
exb_preamble = 0x3baaaaaaaaaaaaaa

-- `EXB_PREAMBLE_R` as the little-endian host holds it in memory
abbrev pub exb_preamble_r : List ℕ
exb_preamble_r = 0x3b ∷ 0xaa ∷ 0xaa ∷ 0xaa ∷ 0xaa ∷ 0xaa ∷ 0xaa ∷ 0xaa ∷ []

abbrev pub exb_type_event : ℕ
exb_type_event = 3

abbrev pub exb_type_eventc : ℕ
exb_type_eventc = 4

abbrev pub exb_type_tick : ℕ
exb_type_tick = 6

-- `body` is the memory that the pointer leads to.
pub record ExbPacket : Type 0 where
  pub preamble : ℕ
  pub tid : ℕ
  pub type : ℕ
  pub length : ℕ
  pub body : List ℕ

-- The block and its `size`. The block is what is written of the `28 + length` bytes allocated.
unfoldable pub to_binary : ExbPacket → List ℕ × ℕ
to_binary packet = (
  u8 ((exb_preamble &&& 0xff00000000000000) >>> 56)
      ∷ u8 ((exb_preamble &&& 0x00ff000000000000) >>> 48)
      ∷ u8 ((exb_preamble &&& 0x0000ff0000000000) >>> 40)
      ∷ u8 ((exb_preamble &&& 0x000000ff00000000) >>> 32)
      ∷ u8 ((exb_preamble &&& 0x00000000ff000000) >>> 24)
      ∷ u8 ((exb_preamble &&& 0x0000000000ff0000) >>> 16)
      ∷ u8 ((exb_preamble &&& 0x000000000000ff00) >>> 8)
      ∷ u8 ((exb_preamble &&& 0x00000000000000ff) >>> 0)
      ∷ u8 ((packet.tid &&& 0xff000000) >>> 24)
      ∷ u8 ((packet.tid &&& 0x00ff0000) >>> 16)
      ∷ u8 ((packet.tid &&& 0x0000ff00) >>> 8)
      ∷ u8 (packet.tid &&& 0x000000ff)
      ∷ u8 packet.type
      ∷ u8 ((packet.length &&& 0xff00) >>> 8)
      ∷ u8 (packet.length &&& 0x00ff)
      ∷ take packet.length packet.body,
  u16 (15 + packet.length),
)

unfoldable pub parse_packet_header : ExbPacket → List ℕ → ExbPacket
parse_packet_header packet buffer = record packet {
  preamble = exb_preamble;
  tid = u32 (
      get_or buffer 3 0 <<< 0
      ||| get_or buffer 2 0 <<< 8
      ||| get_or buffer 1 0 <<< 16
      ||| get_or buffer 0 0 <<< 25);
  type = get_or buffer 4 0;
  length = u16 (get_or buffer 6 0 <<< 0 ||| get_or buffer 5 0 <<< 8);
}
