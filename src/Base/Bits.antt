-- ===== src/Base/Bits.antt =====
-- `&` and `|` at variables: both act on the low `k` bits and on the bits above them apart.
use Prim.Native.Nat.{
  ℕ, zero, suc, ◌+◌, ◌*◌, ◌/◌, ◌%◌, ◌^◌, ◌≤◌, ◌<◌, min, max, digits, bitwise, bit_and, bit_or,
  bit_and-bitwise, bit_or-bitwise,
}
use mathlib.Core.Path.{◌≡◌, refl, ap}
use native.Mathlib.Nat.{pow-suc, le_refl}
use native.Mathlib.Omega.{arith}

-- The fuel of the recursion on binary digits does not matter once it covers the first number.
module _ (z : ℕ → ℕ) (f : ℕ → ℕ → ℕ) where
  digits_of_enough : (n m a b : ℕ) → a ≤ n → a ≤ m → digits z f n a b ≡ digits z f m a b
  digits_of_enough zero zero a b p q = refl
  digits_of_enough zero (suc m) zero b p q = refl
  digits_of_enough zero (suc m) (suc a) b p q = absurd (omega arith)
  digits_of_enough (suc n) zero zero b p q = refl
  digits_of_enough (suc n) zero (suc a) b p q = absurd (omega arith)
  digits_of_enough (suc n) (suc m) zero b p q = refl
  digits_of_enough (suc n) (suc m) (suc a) b p q =
      rw (digits_of_enough n m (suc a / 2) (b / 2) (omega arith) (omega arith))

  bitwise_lowest :
      (a b : ℕ)
      → bitwise z f (suc a) b ≡ bitwise z f (suc a / 2) (b / 2) * 2 + f (suc a % 2) (b % 2)
  bitwise_lowest a b =
      omega (arith, digits_of_enough a (suc a / 2) (suc a / 2) (b / 2) (omega arith) (le_refl _))

bit_or_lowest : (a b : ℕ) → bit_or a b ≡ bit_or (a / 2) (b / 2) * 2 + max (a % 2) (b % 2)
bit_or_lowest zero b = simp bit_or-bitwise (omega arith)
bit_or_lowest (suc a) b = simp bit_or-bitwise (bitwise_lowest (λ y. y) max a b)

bit_and_lowest : (a b : ℕ) → bit_and a b ≡ bit_and (a / 2) (b / 2) * 2 + min (a % 2) (b % 2)
bit_and_lowest zero b = simp bit_and-bitwise (omega arith)
bit_and_lowest (suc a) b = simp bit_and-bitwise (bitwise_lowest (λ y. 0) min a b)

double_block : (q k : ℕ) → q * 2 ^ suc k ≡ 2 * (q * 2 ^ k)
double_block q k = omega (arith, ap (λ (t : ℕ). q * t) (pow-suc 2 k))

-- `|` acts on the bits from `k` up and on the `k` low bits apart.
pub bit_or_split :
    (k q r p s : ℕ)
    → r < 2 ^ k
    → s < 2 ^ k
    → bit_or (q * 2 ^ k + r) (p * 2 ^ k + s) ≡ bit_or q p * 2 ^ k + bit_or r s
bit_or_split zero q zero p zero hr hs = rw (to_self q, to_self p) (omega arith)
  where
    to_self : (n : ℕ) → n * 2 ^ 0 + 0 ≡ n
    to_self n = omega arith
bit_or_split zero q (suc r) p s hr hs = absurd (omega arith)
bit_or_split zero q r p (suc s) hr hs = absurd (omega arith)
bit_or_split (suc k) q r p s hr hs = ground (
  arith,
  double_block q k,
  double_block p k,
  double_block (bit_or q p) k,
  pow-suc 2 k,
  bit_or_lowest (q * 2 ^ suc k + r) (p * 2 ^ suc k + s),
  bit_or_lowest r s,
  bit_or_split k q (r / 2) p (s / 2) (omega (arith, pow-suc 2 k)) (omega (arith, pow-suc 2 k)),
)

-- So does `&`.
pub bit_and_split :
    (k q r p s : ℕ)
    → r < 2 ^ k
    → s < 2 ^ k
    → bit_and (q * 2 ^ k + r) (p * 2 ^ k + s) ≡ bit_and q p * 2 ^ k + bit_and r s
bit_and_split zero q zero p zero hr hs = rw (to_self q, to_self p) (omega arith)
  where
    to_self : (n : ℕ) → n * 2 ^ 0 + 0 ≡ n
    to_self n = omega arith
bit_and_split zero q (suc r) p s hr hs = absurd (omega arith)
bit_and_split zero q r p (suc s) hr hs = absurd (omega arith)
bit_and_split (suc k) q r p s hr hs = ground (
  arith,
  double_block q k,
  double_block p k,
  double_block (bit_and q p) k,
  pow-suc 2 k,
  bit_and_lowest (q * 2 ^ suc k + r) (p * 2 ^ suc k + s),
  bit_and_lowest r s,
  bit_and_split k q (r / 2) p (s / 2) (omega (arith, pow-suc 2 k)) (omega (arith, pow-suc 2 k)),
)

zero-bit_or : (a : ℕ) → bit_or 0 a ≡ a
zero-bit_or a = bit_or-bitwise 0 a

zero-bit_and : (a : ℕ) → bit_and 0 a ≡ 0
zero-bit_and a = bit_and-bitwise 0 a

bit_or-zero_below : (n a : ℕ) → a ≤ n → bit_or a 0 ≡ a
bit_or-zero_below n zero h = refl
bit_or-zero_below zero (suc a) h = absurd (omega arith)
bit_or-zero_below (suc n) (suc a) h =
    omega (arith, bit_or_lowest (suc a) 0, bit_or-zero_below n (suc a / 2) (omega arith))

bit_and-zero_below : (n a : ℕ) → a ≤ n → bit_and a 0 ≡ 0
bit_and-zero_below n zero h = refl
bit_and-zero_below zero (suc a) h = absurd (omega arith)
bit_and-zero_below (suc n) (suc a) h =
    omega (arith, bit_and_lowest (suc a) 0, bit_and-zero_below n (suc a / 2) (omega arith))

pub bit_and-zero : (a : ℕ) → bit_and a 0 ≡ 0
bit_and-zero a = bit_and-zero_below a a (le_refl a)

-- `|` of a field from bit `k` up and a field of `k` bits is their sum, in either order.
pub bit_or_disjoint : (k q r : ℕ) → r < 2 ^ k → bit_or (q * 2 ^ k) r ≡ q * 2 ^ k + r
bit_or_disjoint k q r h = ground (
  arith,
  bit_or_split k q 0 0 r (omega arith) h,
  bit_or-zero_below q q (le_refl q),
  zero-bit_or r,
)

pub bit_or_disjoint_low : (k q r : ℕ) → r < 2 ^ k → bit_or r (q * 2 ^ k) ≡ q * 2 ^ k + r
bit_or_disjoint_low k q r h = ground (
  arith,
  bit_or_split k 0 r q 0 h (omega arith),
  bit_or-zero_below r r (le_refl r),
  zero-bit_or q,
)

bit_and_odd : (a m : ℕ) → bit_and a (2 * m + 1) ≡ bit_and (a / 2) m * 2 + a % 2
bit_and_odd a m = ground (arith, bit_and_lowest a (2 * m + 1))

-- Masks of two, four and eight ones.
bit_and_3 : (a : ℕ) → bit_and a 3 ≡ a % 4
bit_and_3 a = omega (arith, bit_and_odd a 1, bit_and_odd (a / 2) 0, bit_and-zero (a / 2 / 2))

pub bit_and_15 : (a : ℕ) → bit_and a 15 ≡ a % 16
bit_and_15 a = omega (arith, bit_and_odd a 7, bit_and_odd (a / 2) 3, bit_and_3 (a / 2 / 2))

pub bit_and_255 : (a : ℕ) → bit_and a 255 ≡ a % 256
bit_and_255 a = omega (
  arith,
  bit_and_odd a 127,
  bit_and_odd (a / 2) 63,
  bit_and_odd (a / 2 / 2) 31,
  bit_and_odd (a / 2 / 2 / 2) 15,
  bit_and_15 (a / 2 / 2 / 2 / 2),
)

-- A mask of one byte, at bit `k`.
pub bit_and_byte_at : (k a : ℕ) → 0 < 2 ^ k → bit_and a (255 * 2 ^ k) ≡ a / 2 ^ k % 256 * 2 ^ k
bit_and_byte_at k a h = ground (
  arith,
  bit_and_split k (a / 2 ^ k) (a % 2 ^ k) 255 0 (omega arith) h,
  bit_and_255 (a / 2 ^ k),
  bit_and-zero (a % 2 ^ k),
)

-- The masks `0x00ff00ff` and `0xff00ff00` of the byte swaps.
pub bit_and_even_bytes : (a : ℕ) → bit_and a 0x00ff00ff ≡ a / 0x10000 % 256 * 0x10000 + a % 256
bit_and_even_bytes a = ground (
  arith,
  bit_and_split 16 (a / 0x10000) (a % 0x10000) 255 255 (omega arith) (omega arith),
  bit_and_255 (a / 0x10000),
  bit_and_255 (a % 0x10000),
)

pub bit_and_odd_bytes :
    (a : ℕ) → bit_and a 0xff00ff00 ≡ a / 0x1000000 % 256 * 0x1000000 + a / 0x100 % 256 * 0x100
bit_and_odd_bytes a = ground (
  arith,
  bit_and_split 16 (a / 0x10000) (a % 0x10000) 0xff00 0xff00 (omega arith) (omega arith),
  bit_and_byte_at 8 (a / 0x10000) (omega arith),
  bit_and_byte_at 8 (a % 0x10000) (omega arith),
)

-- The masks `0x0000ffff` and `0xffff0000` of the halves.
pub bit_and_ffff : (a : ℕ) → bit_and a 0xffff ≡ a % 0x10000
bit_and_ffff a = ground (
  arith,
  bit_and_split 8 (a / 256) (a % 256) 255 255 (omega arith) (omega arith),
  bit_and_255 (a / 256),
  bit_and_255 (a % 256),
)

pub bit_and_ffff0000 : (a : ℕ) → bit_and a 0xffff0000 ≡ a / 0x10000 % 0x10000 * 0x10000
bit_and_ffff0000 a = ground (
  arith,
  bit_and_split 16 (a / 0x10000) (a % 0x10000) 0xffff 0 (omega arith) (omega arith),
  bit_and_ffff (a / 0x10000),
  bit_and-zero (a % 0x10000),
)
