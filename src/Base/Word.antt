-- ===== src/Base/Word.antt =====
-- Casts to C's unsigned widths, shifts, and the byte order of a little-endian host.
use Prim.Native.Nat.{ℕ, ◌*◌, ◌/◌, ◌%◌, ◌^◌, bit_and, bit_or}

abbrev pub u8 : ℕ → ℕ
u8 n = n % 2 ^ 8

abbrev pub u16 : ℕ → ℕ
u16 n = n % 2 ^ 16

abbrev pub u32 : ℕ → ℕ
u32 n = n % 2 ^ 32

-- C binds `&` tighter than `|`, and the shifts tighter than both.
infixl 45 ◌&&&◌
infixl 40 ◌|||◌
infixl 60 ◌<<<◌ ◌>>>◌
abbrev pub ◌&&&◌ : ℕ → ℕ → ℕ
a &&& b = bit_and a b

abbrev pub ◌|||◌ : ℕ → ℕ → ℕ
a ||| b = bit_or a b

abbrev pub ◌<<<◌ : ℕ → ℕ → ℕ
x <<< k = x * 2 ^ k

abbrev pub ◌>>>◌ : ℕ → ℕ → ℕ
x >>> k = x / 2 ^ k
