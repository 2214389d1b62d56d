-- ===== src/Delay/Late.antt =====
-- When a delay ends.
use okto_wsd.Base.{ℕ, ◌+◌, ◌*◌, ◌/◌, ◌%◌, ◌<◌, ◌≤◌, ◌≡◌, sym, ◌∙◌, arith, List, [], ◌∷◌, ◌++◌, some}
use mathlib.Core.Path.{subst}
use okto_wsd.Delay.{TimeMacros, returns, busy, sleeps, delay, wait_until, delay_hard}

module _ (m : TimeMacros) where
  open m use {Timeval, timeval, add, earlier, micros, micros-timeval, micros-add, earlier_iff}

  -- All are before the time.
  abbrev pub AllBefore : ℕ → List Timeval → Type 0
  AllBefore time [] = Unit
  AllBefore time (t ∷ ts) = (micros t < time) × AllBefore time ts

  goes_on :
      (t : Timeval) (later : List Timeval) (end now : Timeval)
      → micros now < micros end
      → wait_until m (t ∷ later) end now ≡ wait_until m later end t
  unfolding wait_until
  goes_on t later end now h = rw ((earlier_iff now end).1 h)

  ends :
      (later : List Timeval) (end now : Timeval)
      → micros end ≤ micros now
      → wait_until m later end now ≡ some now
  unfolding wait_until
  ends [] end now h = ground (arith, earlier_iff now end)
  ends (t ∷ later) end now h = ground (arith, earlier_iff now end)

  wait_until_lem :
      (early : List Timeval) (t : Timeval) (rest : List Timeval) (end now : Timeval)
      → AllBefore (micros end) (now ∷ early)
      → micros end ≤ micros t
      → wait_until m (early ++ (t ∷ rest)) end now ≡ some t
  wait_until_lem [] t rest end now (first, before) late =
      goes_on t rest end now first ∙ ends rest end t late
  wait_until_lem (s ∷ early) t rest end now (first, before) late =
      goes_on s (early ++ (t ∷ rest)) end now first ∙ wait_until_lem early t rest end s before late

  -- The busy wait for some microseconds ends, at the first reading of the clock that is at least so
  -- much later than the one it began with.
  pub delay_hard_lem :
      (how_long : ℕ) (now : Timeval) (early : List Timeval) (t : Timeval) (rest : List Timeval)
      → 0 < how_long
      → AllBefore (micros now + how_long) early
      → micros now + how_long ≤ micros t
      → delay_hard m how_long now (early ++ (t ∷ rest)) ≡ some t
  unfolding delay_hard
  delay_hard_lem how_long now early t rest pos before late =
      let end = add now (timeval (how_long / 1000000) (how_long % 1000000)) in
      let at : micros end ≡ micros now + how_long = omega (
        arith,
        micros-add now (timeval (how_long / 1000000) (how_long % 1000000)),
        micros-timeval (how_long / 1000000) (how_long % 1000000) (omega arith),
      ) in
      wait_until_lem early t rest end now
        (omega (arith, at), subst (λ k. AllBefore k early) (sym at) before) (omega (arith, at))

-- No delay returns at once, one below 100 waits for the clock, and any other sleeps as long as it is
-- asked to, in seconds and fewer than 10 ^ 9 nanoseconds.
delay_lem :
    (how_long : ℕ)
    → (how_long ≡ 0 → delay how_long ≡ returns)
      × (0 < how_long → how_long < 100 → delay how_long ≡ busy)
      × (100 ≤ how_long
          → (s n : ℕ) × (delay how_long ≡ sleeps s n)
            × (s * 1000000000 + n ≡ how_long * 1000)
            × (n < 1000000000))
unfolding delay
delay_lem how_long = (
  λ h. ground arith,
  λ h k. ground arith,
  λ h. (how_long / 1000000, how_long % 1000000 * 1000, ground arith, omega arith, omega arith),
)
