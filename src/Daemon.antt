-- ===== src/Daemon.antt =====
-- core.c: starting, stopping and asking for the daemon, over its pid file.
pub mod PidFile
pub mod Session
mod Tests
use okto_wsd.Base.{
  ℕ, zero, suc, ◌+◌, ◌≡◌, ◌≤◌, ◌<◌, ◌^◌, List, [], ◌∷◌, ◌++◌, Bool, true, false, ◌||◌, ◌&&◌, not,
  Option, none, some, if◌then◌else◌, ◌==◌, leb, ltb, take, length,
}
use okto_wsd.Base.Int.{ℤ, pos, negsuc, negative}
use okto_wsd.Itoa.{Sprintf, itoa2}
use okto_wsd.Map2.{Key, str_eq}

-- `b'0'` to `b'9'`
abbrev pub is_digit : ℕ → Bool
is_digit b = leb 48 b && leb b 57

-- The C library's `atoi`, on the bytes from a pointer on. It reads a number back that `sprintf`
-- printed, up to a byte that is no digit, and gives 0 where there is no digit at all.
pub record Atoi (c : Sprintf) : Type 0 where
  pub parse : List ℕ → ℕ
  pub parse_printed :
      (n b : ℕ) (rest : List ℕ)
      → n < 2 ^ 31
      → is_digit b ≡ false
      → parse (c.print n ++ (b ∷ rest)) ≡ n
  pub parse_end : (rest : List ℕ) → parse (0 ∷ rest) ≡ 0

-- what `fork` returned, and in which process
pub data Fork : Type 0 where
  fork_failed in_child : Fork
  in_parent : ℕ → Fork

-- The answers of the host while a command runs; `written` is 0 where `write` fails. `behind` is the
-- memory behind the block that the pid is read to, which has no terminator of its own.
pub record Host : Type 0 where
  pub fork : Fork
  pub can_create : Bool
  pub written : ℕ
  pub can_open : Bool
  pub behind : List ℕ

-- The text of the pid file, if there is one, and the processes that were sent SIGUSR1.
pub record World : Type 0 where
  pub pid_file : Option (List ℕ)
  pub signalled : List ℕ

-- A command returns a code, or goes on as the daemon.
pub data Outcome : Type 0 where
  returns : ℤ → Outcome
  runs_daemon : Outcome

abbrev pub failure : ℤ
failure = negsuc 0

abbrev pub success : ℤ
success = pos 0

abbrev pub start_key : Key
start_key = b's' ∷ b't' ∷ b'a' ∷ b'r' ∷ b't' ∷ []

abbrev pub stop_key : Key
stop_key = b's' ∷ b't' ∷ b'o' ∷ b'p' ∷ []

abbrev pub restart_key : Key
restart_key = b'r' ∷ b'e' ∷ b's' ∷ b't' ∷ b'a' ∷ b'r' ∷ b't' ∷ []

abbrev pub status_key : Key
status_key = b's' ∷ b't' ∷ b'a' ∷ b't' ∷ b'u' ∷ b's' ∷ []

-- The second half of `restart`: a daemon goes on, and the codes are joined otherwise.
abbrev pub join_codes : ℤ → Outcome → Outcome
join_codes r1 runs_daemon = runs_daemon
join_codes r1 (returns r2) = if negative r1 || negative r2 then returns failure else returns success

-- The loop of `startServer`, over what `accept` returns: the sockets that get a receiving thread,
-- and whether the program has ended with -1. `none` is the failure of `accept`.
unfoldable pub serve : List (Option ℕ) → List ℕ × Bool
serve [] = ([], false)
serve (none ∷ accepted) = ([], true)
serve (some socket ∷ accepted) = let (sockets, ended) = serve accepted in (socket ∷ sockets, ended)

-- `startDaemon` after `RF_init` with its code: `none` is `exit(0)`, before any thread is started.
unfoldable pub start_daemon : ℕ → List (Option ℕ) → Option (List ℕ × Bool)
unfolding serve
start_daemon ir accepted = if ir == 0 then some (serve accepted) else none

module _ (c : Sprintf) where
  -- The parent's branch of `start`, once the file is open and empty.
  unfoldable pub write_pid : Host → ℕ → World → Outcome × World
  unfolding itoa2
  write_pid host pid w =
      let after : World = record w { pid_file = some (take host.written (itoa2 c pid)) } in
      if host.written == 0 then (returns failure, after) else (returns success, after)

  unfoldable pub start : Host → World → Outcome × World
  unfolding write_pid
  start host w = elim w.pid_file [
    | some text ↦ (returns failure, w)
    | none ↦ elim host.fork [
      | fork_failed ↦ (returns failure, w)
      | in_child ↦ (runs_daemon, w)
      | in_parent pid ↦ if host.can_create then write_pid host pid w else (returns failure, w)
    ]
  ]

  unfoldable pub start_behind : Host → ℤ × World → Outcome × World
  unfolding start
  start_behind host (r1, w1) = (join_codes r1 (start host w1).0, (start host w1).1)

  module _ (atoi : Atoi c) where
    open atoi use {parse}

    unfoldable pub stop : Host → World → ℤ × World
    stop host w = elim w.pid_file [
      | none ↦ (failure, w)
      | some text ↦
          if host.can_open
          then (
            success,
            record {
              pid_file = none;
              signalled = w.signalled ++ (parse (text ++ host.behind) ∷ []);
            },
          )
          else (failure, w)
    ]

    unfoldable pub restart : Host → World → Outcome × World
    unfolding stop start_behind
    restart host w = start_behind host (stop host w)

    -- The code, and the pid that the log names.
    unfoldable pub status : Host → World → ℤ × Option ℕ
    status host w = elim w.pid_file [
      | none ↦ (success, none)
      | some text ↦
          if host.can_open then (success, some (parse (text ++ host.behind))) else (failure, none)
    ]

    unfoldable pub run_action : Key → Host → World → Outcome × World
    unfolding start stop restart status
    run_action action host w =
        if str_eq action start_key
        then start host w
        else if str_eq action stop_key
        then (returns (stop host w).0, (stop host w).1)
        else if str_eq action restart_key
        then restart host w
        else if str_eq action status_key
        then (returns (status host w).0, w)
        else (returns success, w)

    -- `daemonRun`: the arguments behind the program's name. `none` is `exit(1)`, without a log.
    unfoldable pub daemon_run : Bool → Host → List Key → World → Option (Outcome × World)
    unfolding run_action
    daemon_run log_opens host args w =
        if log_opens
        then elim args [
          | [] ↦ some (returns failure, w)
          | action ∷ more ↦ some (run_action action host w)
        ]
        else none

    -- Commands typed one after another, each with the answers it gets, and what they return.
    unfoldable pub session : List (Host × List Key) → World → Option (List Outcome × World)
    unfolding daemon_run
    session [] w = some ([], w)
    session ((host, args) ∷ cmds) w = elim (daemon_run true host args w) [
      | none ↦ none
      | some (r, w') ↦ elim (session cmds w') [ none ↦ none | some (rs, w'') ↦ some (r ∷ rs, w'') ]
    ]
