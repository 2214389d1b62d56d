-- ===== src/Delay/Tests.antt =====
-- A clock that counts microseconds.
use okto_wsd.Base.{ℕ, ◌+◌, ◌*◌, ◌<◌, ◌≡◌, ◌↔◌, refl, true, arith, [], ◌∷◌, ◌++◌, some, ltb}
use okto_wsd.Delay.{TimeMacros, delay_hard}
use okto_wsd.Delay.Late.{delay_hard_lem}

counts : (a b : ℕ) → (ltb a b ≡ true) ↔ (a < b)
counts a b = ground arith

abbrev micro_clock : TimeMacros
micro_clock = record {
  Timeval = ℕ;
  timeval = λ sec usec. sec * 1000000 + usec;
  add = λ a b. a + b;
  earlier = ltb;
  micros = λ t. t;
  micros-timeval = λ sec usec small. refl;
  micros-add = λ a b. refl;
  earlier_iff = counts;
}

delay_hard_lem_example : delay_hard micro_clock 30 5 ((9 ∷ 34 ∷ []) ++ (41 ∷ 50 ∷ [])) ≡ some 41
delay_hard_lem_example =
    delay_hard_lem micro_clock 30 5 (9 ∷ 34 ∷ []) 41 (50 ∷ []) (omega arith) (omega arith)
      (omega arith)
