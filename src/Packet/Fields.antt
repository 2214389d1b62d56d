-- ===== src/Packet/Fields.antt =====
-- The byte expressions that both packet formats use, as arithmetic.
use okto_wsd.Base.{ℕ, ◌+◌, ◌*◌, ◌/◌, ◌%◌, ◌<◌, ◌≡◌, arith}
use okto_wsd.Base.Word.{u8, u16, u32, ◌&&&◌, ◌|||◌, ◌<<<◌, ◌>>>◌}
use okto_wsd.Base.Bits.{bit_and_byte_at, bit_and_255, bit_or_disjoint_low}

-- The bytes of a 32-bit number, the most significant first.
pub top_byte : (x : ℕ) → u8 ((x &&& 0xff000000) >>> 24) ≡ x / 0x1000000 % 256
top_byte x = omega (arith, bit_and_byte_at 24 x (omega arith))

pub third_byte : (x : ℕ) → u8 ((x &&& 0x00ff0000) >>> 16) ≡ x / 0x10000 % 256
third_byte x = omega (arith, bit_and_byte_at 16 x (omega arith))

pub second_byte : (x : ℕ) → u8 ((x &&& 0xff00) >>> 8) ≡ x / 0x100 % 256
second_byte x = omega (arith, bit_and_byte_at 8 x (omega arith))

pub low_byte : (x : ℕ) → u8 (x &&& 0xff) ≡ x % 256
low_byte x = omega (arith, bit_and_255 x)

-- What the headers' parsers make of the four bytes of a transaction id: the first is shifted by
-- 25 bits.
pub tid_of_bytes :
    (b0 b1 b2 b3 : ℕ)
    → b1 < 256
    → b2 < 256
    → b3 < 256
    → u32 (b3 <<< 0 ||| b2 <<< 8 ||| b1 <<< 16 ||| b0 <<< 25)
      ≡ b0 % 128 * 0x2000000 + b1 * 0x10000 + b2 * 0x100 + b3
tid_of_bytes b0 b1 b2 b3 h1 h2 h3 = ground (
  arith,
  bit_or_disjoint_low 8 b2 (b3 <<< 0) (omega arith),
  bit_or_disjoint_low 16 b1 (b2 * 0x100 + b3) (omega arith),
  bit_or_disjoint_low 25 b0 (b1 * 0x10000 + b2 * 0x100 + b3) (omega arith),
)

pub length_of_bytes :
    (hi lo : ℕ) → hi < 256 → lo < 256 → u16 (lo <<< 0 ||| hi <<< 8) ≡ hi * 0x100 + lo
length_of_bytes hi lo h l = ground (arith, bit_or_disjoint_low 8 hi (lo <<< 0) (omega arith))
