-- ===== src/Base/Endian.antt =====
-- 32-bit numbers in the memory of the little-endian host, and the byte swap of the source.
use okto_wsd.Base.Word.{u32, ◌&&&◌, ◌|||◌, ◌<<<◌, ◌>>>◌}
use okto_wsd.Base.Bits.{
  bit_and_even_bytes, bit_and_odd_bytes, bit_and_ffff, bit_and_ffff0000, bit_or_disjoint,
  bit_or_split,
}
use Prim.Native.Nat.{ℕ, ◌+◌, ◌*◌, ◌/◌, ◌%◌, ◌<◌}
use mathlib.Core.Path.{◌≡◌, ap, ◌∙◌}
use mathlib.Core.List.{List, [], ◌∷◌}
use native.Mathlib.Omega.{arith}

-- the four bytes of a `uint32_t`, and the number that four bytes hold
abbrev pub le_bytes : ℕ → List ℕ
le_bytes x = x % 256 ∷ x / 0x100 % 256 ∷ x / 0x10000 % 256 ∷ x / 0x1000000 % 256 ∷ []

-- the same, the most significant byte first
abbrev pub be_bytes : ℕ → List ℕ
be_bytes x = x / 0x1000000 % 256 ∷ x / 0x10000 % 256 ∷ x / 0x100 % 256 ∷ x % 256 ∷ []

abbrev pub of_le_bytes : (b0 b1 b2 b3 : ℕ) → ℕ
of_le_bytes b0 b1 b2 b3 = b0 + b1 * 0x100 + b2 * 0x10000 + b3 * 0x1000000

-- The two assignments that reverse the bytes of a `uint32_t`: bytes in pairs, then the halves.
unfoldable pub swap_pairs : ℕ → ℕ
swap_pairs x = u32 ((x &&& 0x00ff00ff) <<< 8 ||| (x &&& 0xff00ff00) >>> 8)

unfoldable pub swap_halves : ℕ → ℕ
swap_halves x = u32 ((x &&& 0x0000ffff) <<< 16 ||| (x &&& 0xffff0000) >>> 16)

unfoldable pub reverse_bytes : ℕ → ℕ
reverse_bytes x = swap_halves (swap_pairs x)

swap_pairs_lem :
    (b0 b1 b2 b3 : ℕ)
    → b0 < 256
    → b1 < 256
    → b2 < 256
    → b3 < 256
    → swap_pairs (of_le_bytes b0 b1 b2 b3) ≡ of_le_bytes b1 b0 b3 b2
unfolding swap_pairs
swap_pairs_lem b0 b1 b2 b3 h0 h1 h2 h3 = ground (
  arith,
  bit_and_even_bytes (of_le_bytes b0 b1 b2 b3),
  bit_and_odd_bytes (of_le_bytes b0 b1 b2 b3),
  bit_or_split 16 (b2 * 256) (b0 * 256) b3 b1 (omega arith) (omega arith),
  bit_or_disjoint 8 b2 b3 h3,
  bit_or_disjoint 8 b0 b1 h1,
)

swap_halves_lem :
    (b0 b1 b2 b3 : ℕ)
    → b0 < 256
    → b1 < 256
    → b2 < 256
    → b3 < 256
    → swap_halves (of_le_bytes b0 b1 b2 b3) ≡ of_le_bytes b2 b3 b0 b1
unfolding swap_halves
swap_halves_lem b0 b1 b2 b3 h0 h1 h2 h3 = ground (
  arith,
  bit_and_ffff (of_le_bytes b0 b1 b2 b3),
  bit_and_ffff0000 (of_le_bytes b0 b1 b2 b3),
  bit_or_disjoint 16 (b0 + b1 * 256) (b2 + b3 * 256) (omega arith),
)

pub reverse_bytes_lem :
    (b0 b1 b2 b3 : ℕ)
    → b0 < 256
    → b1 < 256
    → b2 < 256
    → b3 < 256
    → reverse_bytes (of_le_bytes b0 b1 b2 b3) ≡ of_le_bytes b3 b2 b1 b0
unfolding reverse_bytes
reverse_bytes_lem b0 b1 b2 b3 h0 h1 h2 h3 =
    ap swap_halves (swap_pairs_lem b0 b1 b2 b3 h0 h1 h2 h3)
    ∙ swap_halves_lem b1 b0 b3 b2 h1 h0 h3 h2
