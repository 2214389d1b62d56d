-- ===== src/Itoa.antt =====
-- `itoa2` of utils.c over the C library's `sprintf`.
use okto_wsd.Base.{
  ℕ, ◌+◌, ◌-◌, ◌/◌, ◌%◌, ◌^◌, ◌≤◌, ◌<◌, ◌≡◌, arith, List, [], ◌∷◌, length, take, take_all, ap, ◌∙◌,
  sym, get_or,
}
use okto_wsd.Base.Word.{u8}

-- `sprintf(buf, "%d", num)` for an `int` given by its bit pattern: the characters before the
-- terminator. Different numbers have different texts, of at most 11 characters.
pub record Sprintf : Type 0 where
  pub print : ℕ → List ℕ
  pub print_short : (n : ℕ) → length (print n) ≤ 11
  pub print_injective : (m n : ℕ) → m < 2 ^ 32 → n < 2 ^ 32 → print m ≡ print n → m ≡ n

module _ (c : Sprintf) where
  open c use {print, print_short, print_injective}

  -- `len` counts the terminator, in a `uint8_t`.
  unfoldable pub itoa2 : ℕ → List ℕ
  itoa2 num = take (u8 (length (print num) + 1) - 1) (print num)

  pub itoa2-print : (n : ℕ) → itoa2 n ≡ print n
  unfolding itoa2
  itoa2-print n = take_all (u8 (length (print n) + 1) - 1) (print n) (omega (arith, print_short n))

  pub itoa2_injective : (m n : ℕ) → m < 2 ^ 32 → n < 2 ^ 32 → itoa2 m ≡ itoa2 n → m ≡ n
  itoa2_injective m n p q e = print_injective m n p q (sym (itoa2-print m) ∙ e ∙ itoa2-print n)

-- Ten digits, with leading zeros, meet what is asked of the library.
abbrev pub ten_digits : ℕ → List ℕ
ten_digits n =
    n / 1000000000 % 10
    ∷ n / 100000000 % 10
    ∷ n / 10000000 % 10
    ∷ n / 1000000 % 10
    ∷ n / 100000 % 10
    ∷ n / 10000 % 10
    ∷ n / 1000 % 10
    ∷ n / 100 % 10
    ∷ n / 10 % 10
    ∷ n % 10
    ∷ []

pub ten_digits_injective : (m n : ℕ) → m < 2 ^ 32 → n < 2 ^ 32 → ten_digits m ≡ ten_digits n → m ≡ n
ten_digits_injective m n p q e = omega (
  arith,
  ap (λ l. get_or l 0 0) e,
  ap (λ l. get_or l 1 0) e,
  ap (λ l. get_or l 2 0) e,
  ap (λ l. get_or l 3 0) e,
  ap (λ l. get_or l 4 0) e,
  ap (λ l. get_or l 5 0) e,
  ap (λ l. get_or l 6 0) e,
  ap (λ l. get_or l 7 0) e,
  ap (λ l. get_or l 8 0) e,
  ap (λ l. get_or l 9 0) e,
)

pub ten_digits_short : (n : ℕ) → length (ten_digits n) ≤ 11
ten_digits_short n = omega arith

abbrev pub decimal : Sprintf
decimal = record {
  print = ten_digits;
  print_short = ten_digits_short;
  print_injective = ten_digits_injective;
}
