-- ===== src/Logger.antt =====
-- logger.c: the log of the daemon, in a file and on the standard output.
pub mod Lines
mod Tests
use okto_wsd.Base.{
  ℕ, List, [], ◌∷◌, ◌++◌, Bool, true, false, Option, none, some, if◌then◌else◌, leb, ◌==◌, not,
  ◌&&◌, ◌≡◌,
}
use okto_wsd.Itoa.{Sprintf}

pub data Level : Type 0 where
  debug info error fatal : Level

abbrev pub number : Level → ℕ
number debug = 0
number info = 1
number error = 2
number fatal = 3

abbrev pub name : Level → List ℕ
name debug = b'D' ∷ b'E' ∷ b'B' ∷ b'U' ∷ b'G' ∷ []
name info = b'I' ∷ b'N' ∷ b'F' ∷ b'O' ∷ []
name error = b'E' ∷ b'R' ∷ b'R' ∷ b'O' ∷ b'R' ∷ []
name fatal = b'F' ∷ b'A' ∷ b'T' ∷ b'A' ∷ b'L' ∷ []

-- `LEVEL` of include/logger.h
abbrev pub least_level : ℕ
least_level = 0

-- What was written to the log file behind what it held at first, `none` where it is not open; and
-- what was printed. A write to the file takes all that it is given.
pub record Log : Type 0 where
  pub file : Option (List ℕ)
  pub printed : List ℕ

-- `Logger_init`, with whether the file opens: 0 stands for any descriptor.
unfoldable pub init : Bool → Log → Log
init opens s = record s { file = if opens then some [] else none }

-- what `printf` prints of a text that it takes for a format: the text, if no `%` is in it
abbrev pub is_plain : List ℕ → Bool
is_plain [] = true
is_plain (ch ∷ text) = not (ch == b'%') && is_plain text

pub record Printf : Type 0 where
  pub print : List ℕ → List ℕ
  pub print_plain : (text : List ℕ) → is_plain text ≡ true → print text ≡ text

-- "Unable to write log to the file -> "
abbrev pub unable : List ℕ
unable =
    b'U' ∷ b'n' ∷ b'a' ∷ b'b' ∷ b'l' ∷ b'e' ∷ b' ' ∷ b't' ∷ b'o' ∷ b' ' ∷ b'w' ∷ b'r' ∷ b'i' ∷ b't'
    ∷ b'e' ∷ b' ' ∷ b'l' ∷ b'o' ∷ b'g' ∷ b' ' ∷ b't' ∷ b'o' ∷ b' ' ∷ b't' ∷ b'h' ∷ b'e' ∷ b' '
    ∷ b'f' ∷ b'i' ∷ b'l' ∷ b'e' ∷ b' ' ∷ b'-' ∷ b'>' ∷ b' ' ∷ []

module _ (c : Sprintf) (p : Printf) where
  unfoldable pub logger_log : List ℕ → ℕ → Log → Log
  logger_log msg level s =
      if leb least_level level
      then elim s.file [
        | none ↦ record s { printed = s.printed ++ (unable ++ msg) ++ p.print msg }
        | some text ↦ record { file = some (text ++ msg); printed = s.printed ++ p.print msg }
      ]
      else s

  -- `logfmt`, at a time, a level, a source and a message
  unfoldable pub line : ℕ → Level → List ℕ → List ℕ → List ℕ
  line time level source msg =
      b'[' ∷ c.print time
      ++ (b']' ∷ b'[' ∷ name level)
      ++ (b']' ∷ b'[' ∷ source)
      ++ (b']' ∷ b' ' ∷ b'-' ∷ b'>' ∷ b' ' ∷ msg)
      ++ (0xa ∷ [])

  -- `Logger_debug`, `Logger_info`, `Logger_error` and `Logger_fatal`, whose bodies differ by the
  -- level; `msg` is what `vsprintf` has made of the arguments.
  unfoldable pub logger : Level → ℕ → List ℕ → List ℕ → Log → Log
  unfolding logger_log line
  logger level time source msg s = logger_log (line time level source msg) (number level) s
