-- ===== src/Logger/Tests.antt =====
-- Two calls without a file, and a short line.
use okto_wsd.Base.{◌+◌, ◌≤◌, arith, length, ◌≡◌, refl, List, [], ◌∷◌, ◌++◌, none}
use okto_wsd.Itoa.{decimal}
use okto_wsd.Logger.{Printf, info, fatal, line}
use okto_wsd.Logger.Lines.{Call, log_all, lines_of, behind, shown, log_all_lem, line_fits}

-- `printf` of texts with no `%`
abbrev verbatim : Printf
verbatim = record { print = λ text. text; print_plain = λ text plain. refl }

abbrev calls : List Call
calls =
    record { level = info; time = 7; source = b'S' ∷ []; msg = b'u' ∷ b'p' ∷ [] }
    ∷ record { level = fatal; time = 8; source = b'S' ∷ []; msg = b'n' ∷ b'o' ∷ [] }
    ∷ []

log_all_lem_example :
    log_all decimal verbatim calls (record { file = none; printed = [] }) ≡ record {
      file = behind decimal verbatim none (lines_of decimal verbatim calls);
      printed = [] ++ shown decimal verbatim none calls;
    }
unfolding line
log_all_lem_example = log_all_lem decimal verbatim calls none [] (refl, (refl, tt))

line_fits_example : length (line decimal verbatim 7 info (b'S' ∷ []) (b'u' ∷ b'p' ∷ [])) + 1 ≤ 502
line_fits_example =
    line_fits decimal verbatim
      (record { level = info; time = 7; source = b'S' ∷ []; msg = b'u' ∷ b'p' ∷ [] }) (omega arith)
