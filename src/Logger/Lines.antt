-- ===== src/Logger/Lines.antt =====
-- What stands in the log.
use okto_wsd.Base.{
  ℕ, ◌+◌, ◌≤◌, ◌≡◌, refl, ap, ap₂, sym, ◌∙◌, arith, List, [], ◌∷◌, ◌++◌, true, Option, none, some,
  length, length-append,
}
use mathlib.Core.List.{append-nil, append_assoc}
use okto_wsd.Itoa.{Sprintf}
use okto_wsd.Logger.{
  Level, debug, info, error, fatal, Log, Printf, is_plain, unable, name, line, logger, logger_log,
}

-- A call: its level, the time of it, its source and its message.
pub record Call : Type 0 where
  pub level : Level
  pub time : ℕ
  pub source : List ℕ
  pub msg : List ℕ

abbrev bracketed : List ℕ → List ℕ
bracketed text = b'[' ∷ (text ++ (b']' ∷ []))

abbrev level_text : Level → List ℕ
level_text debug = b'D' ∷ b'E' ∷ b'B' ∷ b'U' ∷ b'G' ∷ []
level_text info = b'I' ∷ b'N' ∷ b'F' ∷ b'O' ∷ []
level_text error = b'E' ∷ b'R' ∷ b'R' ∷ b'O' ∷ b'R' ∷ []
level_text fatal = b'F' ∷ b'A' ∷ b'T' ∷ b'A' ∷ b'L' ∷ []

length-bracketed : (text : List ℕ) → length (bracketed text) ≡ length text + 2
length-bracketed text = omega (arith, length-append text (b']' ∷ []))

name_lem : (l : Level) → name l ≡ level_text l
name_lem debug = refl
name_lem info = refl
name_lem error = refl
name_lem fatal = refl

module _ (c : Sprintf) (p : Printf) where
  -- "[TIME][LEVEL][SOURCE] -> MESSAGE" and the end of the line
  abbrev pub line_of : Call → List ℕ
  line_of k =
      bracketed (c.print k.time)
      ++ (bracketed (level_text k.level)
          ++ (bracketed k.source ++ ((b' ' ∷ b'-' ∷ b'>' ∷ b' ' ∷ []) ++ (k.msg ++ (0xa ∷ [])))))

  line_lem : (k : Call) → line c p k.time k.level k.source k.msg ≡ line_of k
  unfolding line
  line_lem k = rw (name_lem k.level) (simp append_assoc)

  -- calls one after another
  pub log_all : List Call → Log → Log
  log_all [] s = s
  log_all (k ∷ calls) s = log_all calls (logger c p k.level k.time k.source k.msg s)

  abbrev pub lines_of : List Call → List ℕ
  lines_of [] = []
  lines_of (k ∷ calls) = line_of k ++ lines_of calls

  abbrev pub AllPlain : List Call → Type 0
  AllPlain [] = Unit
  AllPlain (k ∷ calls) = (is_plain (line_of k) ≡ true) × AllPlain calls

  -- The file behind some calls; without an open file there is none.
  abbrev pub behind : Option (List ℕ) → List ℕ → Option (List ℕ)
  behind none bytes = none
  behind (some text) bytes = some (text ++ bytes)

  -- What some calls print: their lines, each twice, and once with a complaint, if no file is open.
  abbrev pub shown : Option (List ℕ) → List Call → List ℕ
  shown file [] = []
  shown none (k ∷ calls) = ((unable ++ line_of k) ++ line_of k) ++ shown none calls
  shown (some text) (k ∷ calls) = line_of k ++ shown (some text) calls

  shown-some : (t u : List ℕ) (calls : List Call) → shown (some t) calls ≡ shown (some u) calls
  shown-some t u [] = refl
  shown-some t u (k ∷ calls) = ap (λ l. line_of k ++ l) (shown-some t u calls)

  open_line :
      (k : Call) (text out : List ℕ)
      → is_plain (line_of k) ≡ true
      → logger c p k.level k.time k.source k.msg (record { file = some text; printed = out })
        ≡ record { file = some (text ++ line_of k); printed = out ++ line_of k }
  unfolding logger logger_log
  open_line k text out plain = ground (arith, line_lem k, p.print_plain (line_of k))

  closed_line :
      (k : Call) (out : List ℕ)
      → is_plain (line_of k) ≡ true
      → logger c p k.level k.time k.source k.msg (record { file = none; printed = out })
        ≡ record { file = none; printed = out ++ ((unable ++ line_of k) ++ line_of k) }
  unfolding logger logger_log
  closed_line k out plain = ground (
    arith,
    line_lem k,
    p.print_plain (line_of k),
    append_assoc out (unable ++ line_of k) (line_of k),
  )

  -- Every call, of whatever level, adds its line to an open file and prints it, in order, if no
  -- line has a `%` in it. Without an open file nothing is lost either: each line is printed behind a
  -- complaint and once more.
  pub log_all_lem :
      (calls : List Call) (file : Option (List ℕ)) (out : List ℕ)
      → AllPlain calls
      → log_all calls (record { file = file; printed = out })
        ≡ record { file = behind file (lines_of calls); printed = out ++ shown file calls }
  unfolding log_all
  log_all_lem [] none out plain =
      ap (λ l. record { file = none; printed = l }) (sym (append-nil out))
  log_all_lem [] (some text) out plain =
      ap₂ (λ f l. record { file = some f; printed = l }) (sym (append-nil text))
        (sym (append-nil out))
  log_all_lem (k ∷ calls) none out (plain, rest) =
      let twice = (unable ++ line_of k) ++ line_of k in
      ap (log_all calls) (closed_line k out plain)
      ∙ log_all_lem calls none (out ++ twice) rest
      ∙ ap (λ l. record { file = none; printed = l }) (append_assoc out twice (shown none calls))
  log_all_lem (k ∷ calls) (some text) out (plain, rest) =
      let one = line_of k in
      ap (log_all calls) (open_line k text out plain)
      ∙ log_all_lem calls (some (text ++ one)) (out ++ one) rest
      ∙ ap₂ (λ f l. record { file = some f; printed = l }) (append_assoc text one (lines_of calls))
          (append_assoc out one (shown (some (text ++ one)) calls)
            ∙ ap (λ l. out ++ (one ++ l)) (shown-some (text ++ one) text calls))

  length-level_text : (l : Level) → length (level_text l) ≤ 5
  length-level_text debug = omega arith
  length-level_text info = omega arith
  length-level_text error = omega arith
  length-level_text fatal = omega arith

  -- The line and its terminator fit the block of `500 + strlen(msg)` bytes if the source has at most
  -- 472 characters.
  pub line_fits :
      (k : Call)
      → length k.source ≤ 472
      → length (line c p k.time k.level k.source k.msg) + 1 ≤ 500 + length k.msg
  line_fits k short =
      let time = c.print k.time in
      let level = level_text k.level in
      let tail = k.msg ++ (0xa ∷ []) in
      let arrow : List ℕ = b' ' ∷ b'-' ∷ b'>' ∷ b' ' ∷ [] in
      rw (line_lem k) (
        omega (
          arith,
          length-bracketed time,
          length-bracketed level,
          length-bracketed k.source,
          length-append k.msg (0xa ∷ []),
          length-append arrow tail,
          length-append (bracketed k.source) (arrow ++ tail),
          length-append (bracketed level) (bracketed k.source ++ (arrow ++ tail)),
          length-append (bracketed time)
              (bracketed level ++ (bracketed k.source ++ (arrow ++ tail))),
          length-level_text k.level,
          c.print_short k.time,
        ))
