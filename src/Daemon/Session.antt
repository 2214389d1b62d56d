-- ===== src/Daemon/Session.antt =====
-- Sessions: commands typed one after another.
use okto_wsd.Base.{ℕ, ◌≡◌, ap, sym, ◌∙◌, arith, List, [], ◌∷◌, ◌++◌, true, Option, none, some}
use mathlib.Core.List.{append-nil, append_assoc}
use okto_wsd.Itoa.{Sprintf}
use okto_wsd.Map2.{Key}
use okto_wsd.Daemon.{Atoi, Host, World, Outcome, returns, daemon_run, session}
use okto_wsd.Daemon.PidFile.{
  Action, start_it, stop_it, restart_it, ask_it, word, Setting, told, running_after, stopped_by,
  host_of, IsFine, Small, world, command_lem,
}

-- The whole session: the codes, the daemon at its end, and all that were stopped.
abbrev pub codes : List (Action × Setting) → Option ℕ → List Outcome
codes [] running = []
codes ((action, cmd) ∷ cmds) running =
    returns (told running action) ∷ codes cmds (running_after running action cmd.pid)

abbrev pub running_at_end : List (Action × Setting) → Option ℕ → Option ℕ
running_at_end [] running = running
running_at_end ((action, cmd) ∷ cmds) running =
    running_at_end cmds (running_after running action cmd.pid)

abbrev pub stopped : List (Action × Setting) → Option ℕ → List ℕ
stopped [] running = []
stopped ((action, cmd) ∷ cmds) running =
    stopped_by running action ++ stopped cmds (running_after running action cmd.pid)

module _ (c : Sprintf) where
  abbrev pub AllFine : List (Action × Setting) → Type 0
  AllFine [] = Unit
  AllFine ((action, cmd) ∷ cmds) = IsFine c cmd × AllFine cmds

  Small-running_after :
      (action : Action) (cmd : Setting) (running : Option ℕ)
      → IsFine c cmd
      → Small c running
      → Small c (running_after running action cmd.pid)
  Small-running_after start_it cmd none fine small = fine.0
  Small-running_after start_it cmd (some pid) fine small = small
  Small-running_after stop_it cmd none fine small = tt
  Small-running_after stop_it cmd (some pid) fine small = tt
  Small-running_after restart_it cmd none fine small = fine.0
  Small-running_after restart_it cmd (some pid) fine small = fine.0
  Small-running_after ask_it cmd none fine small = small
  Small-running_after ask_it cmd (some pid) fine small = small

  abbrev pub typed : List (Action × Setting) → List (Host × List Key)
  typed [] = []
  typed ((action, cmd) ∷ cmds) = (host_of c cmd, word action ∷ []) ∷ typed cmds

  module _ (atoi : Atoi c) where
    session_cons :
        (host : Host) (args : List Key) (cmds : List (Host × List Key)) (w w1 w2 : World)
        (r : Outcome) (rs : List Outcome)
        → daemon_run c atoi true host args w ≡ some (r, w1)
        → session c atoi cmds w1 ≡ some (rs, w2)
        → session c atoi ((host, args) ∷ cmds) w ≡ some (r ∷ rs, w2)
    unfolding session
    session_cons host args cmds w w1 w2 r rs e1 e2 = ground (arith, e1, e2)

    session_lem :
        (cmds : List (Action × Setting)) (running : Option ℕ) (signalled : List ℕ)
        → AllFine cmds
        → Small c running
        → session c atoi (typed cmds) (world c running signalled)
          ≡ some (
            codes cmds running,
            world c (running_at_end cmds running) (signalled ++ stopped cmds running),
          )
    unfolding session
    session_lem [] running signalled fine small =
        ap (λ l. some ([], world c running l)) (sym (append-nil signalled))
    session_lem ((action, cmd) ∷ cmds) running signalled (fine, rest) small =
        let next = running_after running action cmd.pid in
        let stops = stopped_by running action in
        session_cons (host_of c cmd) (word action ∷ []) (typed cmds) (world c running signalled)
          (world c next (signalled ++ stops)) _ _ _
          (command_lem c atoi action cmd running signalled fine small)
          (session_lem cmds next (signalled ++ stops) rest
              (Small-running_after action cmd running fine small)
            ∙ ap (λ l. some (codes cmds next, world c (running_at_end cmds next) l))
                (append_assoc signalled stops (stopped cmds next)))

    -- However long a session, where every call of the host goes through and no pid is followed by a
    -- digit in memory: its codes, the daemon that runs at its end and the processes that were
    -- signalled are those of a machine that is off or runs one daemon. `start` is refused while one
    -- runs, `stop` and `restart` signal exactly the daemon that the last successful start left, and
    -- `restart` of nothing returns -1 although it has started a daemon.
    pub session-machine :
        (cmds : List (Action × Setting))
        → AllFine cmds
        → session c atoi (typed cmds) (world c none [])
          ≡ some (codes cmds none, world c (running_at_end cmds none) (stopped cmds none))
    session-machine cmds fine = session_lem cmds none [] fine tt
