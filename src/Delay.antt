-- ===== src/Delay.antt =====
-- time.c: waiting for a number of microseconds.
pub mod Late
mod Tests
use okto_wsd.Base.{
  ℕ, ◌+◌, ◌*◌, ◌/◌, ◌%◌, ◌^◌, ◌<◌, ◌≡◌, ◌↔◌, List, [], ◌∷◌, Bool, true, Option, none, some,
  if◌then◌else◌, ltb, ◌==◌,
}

-- `struct timeval` with the macros of the C library, `timeradd` and `timercmp` with `<`, and the
-- microseconds that a time stands for.
pub record TimeMacros : Type 1 where
  pub Timeval : Type 0
  pub timeval : (sec usec : ℕ) → Timeval
  pub add : Timeval → Timeval → Timeval
  pub earlier : Timeval → Timeval → Bool
  pub micros : Timeval → ℕ
  pub micros-timeval :
      (sec usec : ℕ) → usec < 1000000 → micros (timeval sec usec) ≡ sec * 1000000 + usec
  pub micros-add : (a b : Timeval) → micros (add a b) ≡ micros a + micros b
  pub earlier_iff : (a b : Timeval) → (earlier a b ≡ true) ↔ (micros a < micros b)

-- What a call waits for: nothing, the clock, or `nanosleep` of seconds and nanoseconds.
pub data Waiting : Type 0 where
  returns busy : Waiting
  sleeps : (sec nsec : ℕ) → Waiting

-- `delayMicroseconds`
unfoldable pub delay : ℕ → Waiting
delay how_long =
    if how_long == 0
    then returns
    else if ltb how_long 100
    then busy
    else sleeps (how_long / 1000000) (how_long % 1000000 * 1000)

module _ (m : TimeMacros) where
  open m use {Timeval, timeval, add, earlier}

  -- The loop, over what `gettimeofday` gives from now on: the time when it ends, or `none` while
  -- it has not.
  unfoldable pub wait_until : List Timeval → Timeval → Timeval → Option Timeval
  wait_until [] end now = if earlier now end then none else some now
  wait_until (t ∷ later) end now =
      let rest = wait_until later end t in if earlier now end then rest else some now

  -- `delayMicrosecondsHard`, from the first reading of the clock
  unfoldable pub delay_hard : ℕ → Timeval → List Timeval → Option Timeval
  unfolding wait_until
  delay_hard how_long now later =
      wait_until later (add now (timeval (how_long / 1000000) (how_long % 1000000))) now
