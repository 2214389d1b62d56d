-- ===== src/Daemon/Tests.antt =====
-- A session of five commands, with ten digits for a pid.
use okto_wsd.Base.{
  ℕ, ◌+◌, ◌-◌, ◌*◌, ◌/◌, ◌%◌, ◌≡◌, ◌<◌, ◌≤◌, ◌^◌, refl, ap, ◌∙◌, arith, List, [], ◌∷◌, ◌++◌, true,
  false, none, some, length, get_or,
}
use okto_wsd.Itoa.{Sprintf, ten_digits}
use okto_wsd.Daemon.{
  is_digit, Atoi, Host, World, returns, failure, success, in_parent, start, stop, session,
}
use okto_wsd.Daemon.PidFile.{
  Action, start_it, stop_it, restart_it, ask_it, Setting, IsFine, world, start-unwritten,
}
use okto_wsd.Daemon.Session.{typed, session-machine}

abbrev ascii : List ℕ → List ℕ
ascii [] = []
ascii (d ∷ ds) = (d + 48) ∷ ascii ds

ascii_injective :
    (m n : ℕ) → m < 2 ^ 32 → n < 2 ^ 32 → ascii (ten_digits m) ≡ ascii (ten_digits n) → m ≡ n
ascii_injective m n p q e = omega (
  arith,
  ap (λ l. get_or l 0 0) e,
  ap (λ l. get_or l 1 0) e,
  ap (λ l. get_or l 2 0) e,
  ap (λ l. get_or l 3 0) e,
  ap (λ l. get_or l 4 0) e,
  ap (λ l. get_or l 5 0) e,
  ap (λ l. get_or l 6 0) e,
  ap (λ l. get_or l 7 0) e,
  ap (λ l. get_or l 8 0) e,
  ap (λ l. get_or l 9 0) e,
)

length-ascii : (n : ℕ) → length (ascii (ten_digits n)) ≤ 11
length-ascii n = omega arith

abbrev printer : Sprintf
printer = record {
  print = λ n. ascii (ten_digits n);
  print_short = length-ascii;
  print_injective = ascii_injective;
}

unfoldable read : ℕ → List ℕ → ℕ
read n [] = n
read n (b ∷ bs) = elim (is_digit b) [ true ↦ read (n * 10 + (b - 48)) bs | false ↦ n ]

is_digit_lem : (d : ℕ) → d < 10 → is_digit (d + 48) ≡ true
is_digit_lem d h = ground arith

read_digit : (n d : ℕ) (bs : List ℕ) → d < 10 → read n ((d + 48) ∷ bs) ≡ read (n * 10 + d) bs
unfolding read
read_digit n d bs h =
    rw (is_digit_lem d h, read)
      (ap (λ k. read (n * 10 + k) bs) {x = d + 48 - 48} {y = d} (omega arith))

read_end : (n b : ℕ) (bs : List ℕ) → is_digit b ≡ false → read n (b ∷ bs) ≡ n
unfolding read
read_end n b bs h = rw (h, read) refl

-- Ten digits and a byte that is none.
read_all :
    (a0 a1 a2 a3 a4 a5 a6 a7 a8 a9 b : ℕ) (bs : List ℕ)
    → (a0 < 10) × (a1 < 10) × (a2 < 10) × (a3 < 10) × (a4 < 10)
    → (a5 < 10) × (a6 < 10) × (a7 < 10) × (a8 < 10) × (a9 < 10)
    → is_digit b ≡ false
    → read 0 (ascii (a0 ∷ a1 ∷ a2 ∷ a3 ∷ a4 ∷ a5 ∷ a6 ∷ a7 ∷ a8 ∷ a9 ∷ []) ++ (b ∷ bs))
      ≡ (((((((((0 * 10 + a0) * 10 + a1) * 10 + a2) * 10 + a3) * 10 + a4) * 10 + a5) * 10 + a6) * 10
                + a7)
              * 10
            + a8)
          * 10
        + a9
read_all a0 a1 a2 a3 a4 a5 a6 a7 a8 a9 b bs (h0, h1, h2, h3, h4) (h5, h6, h7, h8, h9) d =
    read_digit _ a0 _ h0
    ∙ read_digit _ a1 _ h1
    ∙ read_digit _ a2 _ h2
    ∙ read_digit _ a3 _ h3
    ∙ read_digit _ a4 _ h4
    ∙ read_digit _ a5 _ h5
    ∙ read_digit _ a6 _ h6
    ∙ read_digit _ a7 _ h7
    ∙ read_digit _ a8 _ h8
    ∙ read_digit _ a9 _ h9
    ∙ read_end _ b bs d

read_printed :
    (n b : ℕ) (bs : List ℕ)
    → n < 2 ^ 31
    → is_digit b ≡ false
    → read 0 (printer.print n ++ (b ∷ bs)) ≡ n
read_printed n b bs h d =
    read_all (n / 1000000000 % 10) (n / 100000000 % 10) (n / 10000000 % 10) (n / 1000000 % 10)
      (n / 100000 % 10) (n / 10000 % 10) (n / 1000 % 10) (n / 100 % 10) (n / 10 % 10) (n % 10) b bs
      (omega arith) (omega arith) d
    ∙ omega arith

read_nothing : (bs : List ℕ) → read 0 (0 ∷ bs) ≡ 0
read_nothing bs = read_end 0 0 bs refl

abbrev reader : Atoi printer
reader = record { parse = read 0; parse_printed = read_printed; parse_end = read_nothing }

abbrev with_pid : ℕ → Setting
with_pid pid = record { pid = pid; behind = 0; more = [] }

abbrev typing : List (Action × Setting)
typing =
    (restart_it, with_pid 41)
    ∷ (ask_it, with_pid 42)
    ∷ (start_it, with_pid 43)
    ∷ (restart_it, with_pid 44)
    ∷ (stop_it, with_pid 45)
    ∷ []

fine : (pid : ℕ) → pid < 2 ^ 31 → IsFine printer (with_pid pid)
fine pid h = (h, omega arith, refl)

session-machine_example :
    session printer reader (typed printer typing) (world printer none [])
    ≡ some (
      returns failure ∷ returns success ∷ returns failure ∷ returns success ∷ returns success ∷ [],
      world printer none (41 ∷ 44 ∷ []),
    )
session-machine_example = session-machine printer reader typing (
  fine 41 (omega arith),
  (
    fine 42 (omega arith),
    (fine 43 (omega arith), (fine 44 (omega arith), (fine 45 (omega arith), tt))),
  ),
)

abbrev unwritten : Host
unwritten = record {
  fork = in_parent 41;
  can_create = true;
  written = 0;
  can_open = true;
  behind = [];
}

abbrev later : Host
later = record {
  fork = in_parent 42;
  can_create = true;
  written = 10;
  can_open = true;
  behind = 0 ∷ [];
}

start-unwritten_example :
    (w : World) × (start printer unwritten (world printer none []) ≡ (returns failure, w))
    × (start printer later w ≡ (returns failure, w))
    × (stop printer reader later w ≡ (success, world printer none (0 ∷ [])))
start-unwritten_example =
    start-unwritten printer reader unwritten 41 [] later [] refl refl refl refl refl
