-- ===== src/Utils.antt =====
-- utils.c: copies of strings and the text of a block of bytes.
use okto_wsd.Base.{
  ℕ, zero, suc, ◌+◌, ◌-◌, ◌*◌, ◌≤◌, ◌≡◌, arith, List, [], ◌∷◌, ◌++◌, length, take, take_all,
  length-append, length-take,
}

-- `strcpy2`, a string as the characters before its terminator: that many and the terminator are
-- copied.
unfoldable pub strcpy2 : List ℕ → List ℕ
strcpy2 str = take (length str + 1 - 1) str

pub strcpy2-id : (str : List ℕ) → strcpy2 str ≡ str
unfolding strcpy2
strcpy2-id str = take_all (length str + 1 - 1) str (omega arith)

-- The C library's `sprintf(s, "%02X ", b)`: three characters for a byte.
pub record HexPrint : Type 0 where
  pub print : ℕ → List ℕ
  pub print_three : (b : ℕ) → length (print b) ≡ 3

module _ (x : HexPrint) where
  open x use {print, print_three}

  -- The text before the terminator, of a block that has as many bytes as are asked for.
  unfoldable pub sprintfhex : List ℕ → ℕ → List ℕ
  sprintfhex array zero = []
  sprintfhex [] (suc size) = []
  sprintfhex (b ∷ array) (suc size) = take 3 (print b) ++ sprintfhex array size

  -- It fills all of the block but the place of the terminator.
  pub length-sprintfhex :
      (array : List ℕ) (size : ℕ) → size ≤ length array → length (sprintfhex array size) ≡ size * 3
  unfolding sprintfhex
  length-sprintfhex array zero h = omega arith
  length-sprintfhex [] (suc size) h = absurd (omega arith)
  length-sprintfhex (b ∷ array) (suc size) h = omega (
    arith,
    length-append (take 3 (print b)) (sprintfhex array size),
    length-take 3 (print b),
    print_three b,
    length-sprintfhex array size (omega arith),
  )
