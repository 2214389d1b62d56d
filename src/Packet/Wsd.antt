-- ===== src/Packet/Wsd.antt =====
-- wsd_packet.c and include/wsd_packet.h: the packets between the driver and its clients.
use okto_wsd.Base.{ℕ, ◌+◌, List, [], ◌∷◌, get_or, take}
use okto_wsd.Base.Word.{u8, u16, u32, ◌&&&◌, ◌|||◌, ◌<<<◌, ◌>>>◌}

abbrev pub wsd_preamble_size : ℕ
wsd_preamble_size = 8

abbrev pub wsd_header_size : ℕ
wsd_header_size = 7

abbrev pub wsd_preamble : ℕ
wsd_preamble = 0x3faaaaaaaaaaaaaa

-- `WSD_PREAMBLE_R` as the little-endian host holds it in memory
abbrev pub wsd_preamble_r : List ℕ
wsd_preamble_r = 0x3f ∷ 0xaa ∷ 0xaa ∷ 0xaa ∷ 0xaa ∷ 0xaa ∷ 0xaa ∷ 0xaa ∷ []

abbrev pub wsd_type_transmit : ℕ
wsd_type_transmit = 0

abbrev pub wsd_type_receive : ℕ
wsd_type_receive = 1

abbrev pub wsd_type_error : ℕ
wsd_type_error = 2

abbrev pub wsd_type_set_pipes_matrix : ℕ
wsd_type_set_pipes_matrix = 3

abbrev pub wsd_type_result : ℕ
wsd_type_result = 4

-- `body` is the memory that the pointer leads to.
pub record WsdPacket : Type 0 where
  pub preamble : ℕ
  pub tid : ℕ
  pub type : ℕ
  pub length : ℕ
  pub body : List ℕ

-- The block and its `size`. The block is what is written of the `28 + length` bytes allocated.
unfoldable pub to_binary : WsdPacket → List ℕ × ℕ
to_binary packet = (
  u8 ((wsd_preamble &&& 0xff00000000000000) >>> 56)
      ∷ u8 ((wsd_preamble &&& 0x00ff000000000000) >>> 48)
      ∷ u8 ((wsd_preamble &&& 0x0000ff0000000000) >>> 40)
      ∷ u8 ((wsd_preamble &&& 0x000000ff00000000) >>> 32)
      ∷ u8 ((wsd_preamble &&& 0x00000000ff000000) >>> 24)
      ∷ u8 ((wsd_preamble &&& 0x0000000000ff0000) >>> 16)
      ∷ u8 ((wsd_preamble &&& 0x000000000000ff00) >>> 8)
      ∷ u8 ((wsd_preamble &&& 0x00000000000000ff) >>> 0)
      ∷ u8 ((packet.tid &&& 0xff000000) >>> 24)
      ∷ u8 ((packet.tid &&& 0x00ff0000) >>> 16)
      ∷ u8 ((packet.tid &&& 0x0000ff00) >>> 8)
      ∷ u8 (packet.tid &&& 0x000000ff)
      ∷ u8 packet.type
      ∷ u8 ((packet.length &&& 0xff00) >>> 8)
      ∷ u8 (packet.length &&& 0x00ff)
      ∷ take packet.length packet.body,
  u16 (15 + packet.length),
)

unfoldable pub parse_packet_header : WsdPacket → List ℕ → WsdPacket
parse_packet_header packet buffer = record packet {
  preamble = wsd_preamble;
  tid = u32 (
      get_or buffer 3 0 <<< 0
      ||| get_or buffer 2 0 <<< 8
      ||| get_or buffer 1 0 <<< 16
      ||| get_or buffer 0 0 <<< 25);
  type = get_or buffer 4 0;
  length = u16 (get_or buffer 6 0 <<< 0 ||| get_or buffer 5 0 <<< 8);
}
