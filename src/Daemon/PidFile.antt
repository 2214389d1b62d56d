-- ===== src/Daemon/PidFile.antt =====
-- The commands one after another, as their users type them, when the host does what it is asked.
use okto_wsd.Base.{
  ℕ, ◌≡◌, ◌<◌, ◌^◌, refl, ap, sym, ◌∙◌, arith, List, [], ◌∷◌, ◌++◌, true, false, Option, none, some,
  length, take_all,
}
use mathlib.Core.List.{append-nil}
use okto_wsd.Base.Int.{ℤ}
use okto_wsd.Itoa.{Sprintf, itoa2, itoa2-print}
use okto_wsd.Map2.{Key}
use okto_wsd.Daemon.{
  is_digit, Atoi, Host, World, Outcome, returns, failure, success, in_parent, start_key, stop_key,
  restart_key, status_key, write_pid, start, stop, restart, status, run_action, daemon_run,
  start_behind, join_codes,
}

pub data Action : Type 0 where
  start_it stop_it restart_it ask_it : Action

abbrev pub word : Action → Key
word start_it = start_key
word stop_it = stop_key
word restart_it = restart_key
word ask_it = status_key

-- What the host adds to a command: the pid that `fork` would return, and the bytes behind
-- the block that a pid is read to.
pub record Setting : Type 0 where
  pub pid : ℕ
  pub behind : ℕ
  pub more : List ℕ

-- What the user is told: a code and, for `status`, nothing more.
abbrev pub told : Option ℕ → Action → ℤ
told none start_it = success
told (some p) start_it = failure
told none stop_it = failure
told (some p) stop_it = success
told none restart_it = failure
told (some p) restart_it = success
told running ask_it = success

-- The daemon that runs behind the command, and the daemon that the command stopped.
abbrev pub running_after : Option ℕ → Action → ℕ → Option ℕ
running_after none start_it pid = some pid
running_after (some p) start_it pid = some p
running_after running stop_it pid = none
running_after running restart_it pid = some pid
running_after running ask_it pid = running

abbrev pub stopped_by : Option ℕ → Action → List ℕ
stopped_by (some p) stop_it = p ∷ []
stopped_by (some p) restart_it = p ∷ []
stopped_by none action = []
stopped_by (some p) start_it = []
stopped_by (some p) ask_it = []

module _ (c : Sprintf) where
  -- Every call of the host goes through, and the whole text of the pid is written.
  abbrev pub host_of : Setting → Host
  host_of cmd = record {
    fork = in_parent cmd.pid;
    can_create = true;
    written = length (c.print cmd.pid);
    can_open = true;
    behind = cmd.behind ∷ cmd.more;
  }

  -- The pid is an `int` with a text, and the byte behind the block is no digit.
  abbrev pub IsFine : Setting → Type 0
  IsFine cmd = (cmd.pid < 2 ^ 31) × (0 < length (c.print cmd.pid)) × (is_digit cmd.behind ≡ false)

  -- The pid file is there exactly while a daemon runs, and names it.
  abbrev pub file_of : Option ℕ → Option (List ℕ)
  file_of none = none
  file_of (some pid) = some (itoa2 c pid)

  abbrev pub Small : Option ℕ → Type 0
  Small none = Unit
  Small (some pid) = pid < 2 ^ 31

  write_pid_lem :
      (cmd : Setting) (w : World)
      → IsFine cmd
      → write_pid c (host_of cmd) cmd.pid w
        ≡ (returns success, record w { pid_file = some (itoa2 c cmd.pid) })
  unfolding write_pid
  write_pid_lem cmd w (small, text, b) =
      rw
        (itoa2-print c cmd.pid, take_all (length (c.print cmd.pid)) (c.print cmd.pid) (omega arith))
        (ground arith)

  abbrev pub world : Option ℕ → List ℕ → World
  world running signalled = record { pid_file = file_of running; signalled = signalled }

  module _ (atoi : Atoi c) where
    open atoi use {parse, parse_printed}

    parse_lem :
        (pid b : ℕ) (more : List ℕ)
        → pid < 2 ^ 31
        → is_digit b ≡ false
        → parse (itoa2 c pid ++ (b ∷ more)) ≡ pid
    parse_lem pid b more h d = rw (itoa2-print c pid) (parse_printed pid b more h d)

    -- `running` stands for a daemon with its pid in the file.
    start_lem :
        (cmd : Setting) (running : Option ℕ) (signalled : List ℕ)
        → IsFine cmd
        → start c (host_of cmd) (world running signalled) ≡ (
          returns (told running start_it),
          world (running_after running start_it cmd.pid) signalled,
        )
    unfolding start
    start_lem cmd none signalled fine = write_pid_lem cmd (world none signalled) fine
    start_lem cmd (some pid) signalled fine = refl

    stop_lem :
        (cmd : Setting) (running : Option ℕ) (signalled : List ℕ)
        → IsFine cmd
        → Small running
        → stop c atoi (host_of cmd) (world running signalled)
          ≡ (told running stop_it, world none (signalled ++ stopped_by running stop_it))
    unfolding stop
    stop_lem cmd none signalled fine small =
        ap (λ l. (failure, world none l)) (sym (append-nil signalled))
    stop_lem cmd (some pid) signalled (_, _, d) small =
        ap (λ p. (success, world none (signalled ++ (p ∷ []))))
          (parse_lem pid cmd.behind cmd.more small d)

    restart_lem :
        (cmd : Setting) (running : Option ℕ) (signalled : List ℕ)
        → IsFine cmd
        → Small running
        → restart c atoi (host_of cmd) (world running signalled) ≡ (
          returns (told running restart_it),
          world (some cmd.pid) (signalled ++ stopped_by running stop_it),
        )
    unfolding restart start_behind
    restart_lem cmd none signalled fine small =
        ap (start_behind c (host_of cmd)) (stop_lem cmd none signalled fine small)
        ∙ ap (λ (t : Outcome × World). (join_codes failure t.0, t.1))
            (start_lem cmd none (signalled ++ []) fine)
    restart_lem cmd (some pid) signalled fine small =
        ap (start_behind c (host_of cmd)) (stop_lem cmd (some pid) signalled fine small)
        ∙ ap (λ (t : Outcome × World). (join_codes success t.0, t.1))
            (start_lem cmd none (signalled ++ (pid ∷ [])) fine)

    status_lem :
        (cmd : Setting) (running : Option ℕ) (signalled : List ℕ)
        → IsFine cmd
        → Small running
        → status c atoi (host_of cmd) (world running signalled) ≡ (success, running)
    unfolding status
    status_lem cmd none signalled fine small = refl
    status_lem cmd (some pid) signalled (_, _, d) small =
        ap (λ p. (success, some p)) (parse_lem pid cmd.behind cmd.more small d)

    pub command_lem :
        (action : Action) (cmd : Setting) (running : Option ℕ) (signalled : List ℕ)
        → IsFine cmd
        → Small running
        → daemon_run c atoi true (host_of cmd) (word action ∷ []) (world running signalled)
          ≡ some (
            returns (told running action),
            world (running_after running action cmd.pid) (signalled ++ stopped_by running action),
          )
    unfolding daemon_run run_action
    command_lem start_it cmd none signalled fine small = ap some (
        start_lem cmd none signalled fine
        ∙ ap (λ l. (returns success, world (some cmd.pid) l)) (sym (append-nil signalled)))
    command_lem start_it cmd (some pid) signalled fine small = ap some (
        start_lem cmd (some pid) signalled fine
        ∙ ap (λ l. (returns failure, world (some pid) l)) (sym (append-nil signalled)))
    command_lem stop_it cmd none signalled fine small =
        ap (λ (t : ℤ × World). some (returns t.0, t.1)) (stop_lem cmd none signalled fine small)
    command_lem stop_it cmd (some pid) signalled fine small =
        ap (λ (t : ℤ × World). some (returns t.0, t.1))
          (stop_lem cmd (some pid) signalled fine small)
    command_lem restart_it cmd none signalled fine small =
        ap some (restart_lem cmd none signalled fine small)
    command_lem restart_it cmd (some pid) signalled fine small =
        ap some (restart_lem cmd (some pid) signalled fine small)
    command_lem ask_it cmd none signalled fine small =
        ap (λ l. some (returns success, world none l)) (sym (append-nil signalled))
    command_lem ask_it cmd (some pid) signalled fine small =
        ap (λ (t : ℤ × Option ℕ). some (returns t.0, world (some pid) signalled))
          (status_lem cmd (some pid) signalled fine small)
        ∙ ap (λ l. some (returns success, world (some pid) l)) (sym (append-nil signalled))

    -- When no byte of the pid gets written, `start` returns -1 and leaves an empty pid file, with
    -- the daemon that it forked running: the next `start` is refused, and `stop` on a block that
    -- happens to begin with a 0 byte returns 0, removes the file and has sent its signal to process
    -- 0, which is every process of the user's group, and to no daemon.
    pub start-unwritten :
        (host : Host) (pid : ℕ) (signalled : List ℕ) (next : Host) (more : List ℕ)
        → host.fork ≡ in_parent pid
        → host.can_create ≡ true
        → host.written ≡ 0
        → next.can_open ≡ true
        → next.behind ≡ 0 ∷ more
        → (w : World) × (start c host (world none signalled) ≡ (returns failure, w))
          × (start c next w ≡ (returns failure, w))
          × (stop c atoi next w ≡ (success, world none (signalled ++ (0 ∷ []))))
    unfolding start stop write_pid
    start-unwritten host pid signalled next more f cr wr op be = (
      record { pid_file = some []; signalled = signalled },
      ground (arith, f, cr, wr),
      refl,
      rw (op, be, atoi.parse_end more) refl,
    )
