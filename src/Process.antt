-- ===== src/Process.antt =====
-- utils.c: the process control. Functions of several processes have a definition for each of them.
pub mod Table
pub mod Pipes
pub mod Spawn
pub mod Carries
pub mod Background
pub mod Result
pub mod Verdict
pub mod Detach
mod Tests
use udprelayd.Base.{ℕ, true, Option, none, some, List, [], ◌∷◌, ◌==◌, if◌then◌else◌}
use udprelayd.Base.Int.{ℤ, pos, negsuc}
use udprelayd.Unix.{
  Cmd, Outcome, close, dup2, execvp, exit, fork, open_null, pipe, pure, read, returned, set_cloexec,
  wait_status, write, ◌>>=◌, ◌>>◌,
}

-- the child process of spawn_and_wait
unfoldable pub run_program : List (List ℕ) → Cmd (Unit {0})
run_program argv = do execvp argv; exit 1

unfoldable pub spawn_and_wait : List (List ℕ) → Cmd ℕ
spawn_and_wait argv = do child ← fork (run_program argv); wait_status child

-- the child process of pipe_open
unfoldable pub pipe_child : List (List ℕ) → ℕ → ℕ → Cmd (Unit {0})
pipe_child argv reader writer = do close reader; dup2 writer 1; execvp argv; exit 1

-- With the pipe, if there is one. The second result is what `*child_pid` names.
unfoldable pub pipe_opened : List (List ℕ) → Option (ℕ × ℕ) → Cmd (ℤ × Option (Outcome (Unit {0})))
pipe_opened argv none = pure (negsuc 0, none)
pipe_opened argv (some (reader, writer)) = do
  child ← fork (pipe_child argv reader writer)
  close writer
  set_cloexec reader
  pure (pos reader, child)

unfoldable pub pipe_open : List (List ℕ) → Cmd (ℤ × Option (Outcome (Unit {0})))
pipe_open argv = do ends ← pipe; pipe_opened argv ends

unfoldable pub chdir_root : Cmd (Unit {0})
chdir_root p w = (returned tt, (record p { at_root = true }, w))

-- `putenv`, one string after the other
unfoldable pub putenvs : List (List ℕ) → Cmd (Unit {0})
putenvs [] p w = (returned tt, (p, w))
putenvs (e ∷ es) p w = putenvs es (record p { env = e ∷ p.env }) w

-- Calls on the descriptor -1 do nothing.
unfoldable pub stdin_null : Option ℕ → Cmd (Unit {0})
stdin_null none = pure tt
stdin_null (some fd) = do dup2 fd 0; close fd

-- the grandson of spawn_bg, before it executes the program
unfoldable pub prepare : ℕ → List (List ℕ) → Cmd (Unit {0})
prepare writer extra_env = do
  chdir_root
  fd ← open_null
  stdin_null fd
  set_cloexec writer
  putenvs extra_env

unfoldable pub grandson : List (List ℕ) → List (List ℕ) → ℕ → Cmd (Unit {0})
grandson argv extra_env writer = do prepare writer extra_env; execvp argv; write writer 0; exit 0

unfoldable pub after_second : Option (Outcome (Unit {0})) → Cmd (Unit {0})
after_second none = exit 1
after_second (some o) = exit 0

-- the child process of spawn_bg
unfoldable pub bg_child : List (List ℕ) → List (List ℕ) → ℕ → ℕ → Cmd (Unit {0})
bg_child argv extra_env reader writer = do
  close reader
  other ← fork (grandson argv extra_env writer)
  after_second other

-- Wait for grandson exec.
unfoldable pub wait_exec : ℕ → Cmd ℤ
wait_exec reader = do
  rd ← read reader
  close reader
  pure (elim rd [ pos n ↦ if n == 0 then pos 0 else negsuc 0 | negsuc n ↦ negsuc 0 ])

-- Wait for child.
unfoldable pub wait_child : ℕ → ℕ → Option (Outcome (Unit {0})) → Cmd ℤ
wait_child reader writer none = pure (negsuc 0)
wait_child reader writer (some o) = do
  close writer
  status ← wait_status (some o)
  if status == 0 then wait_exec reader else (do close reader; pure (negsuc 0))

unfoldable pub spawn_piped : List (List ℕ) → List (List ℕ) → Option (ℕ × ℕ) → Cmd ℤ
spawn_piped argv extra_env none = pure (negsuc 0)
spawn_piped argv extra_env (some (reader, writer)) = do
  child ← fork (bg_child argv extra_env reader writer)
  wait_child reader writer child

-- Perform double fork; `NULL` for `extra_env` is the empty list.
unfoldable pub spawn_bg : List (List ℕ) → List (List ℕ) → Cmd ℤ
spawn_bg argv extra_env = do ends ← pipe; spawn_piped argv extra_env ends

-- The child's number is that of its fork.
unfoldable pub write_pid : Option (List ℕ) → Cmd (Unit {0})
write_pid none p w = (returned tt, (p, w))
write_pid (some pid_file) p w =
    if w.fopen_answer
    then (returned tt, (p, record w { pid_files = (pid_file, w.forks) ∷ w.pid_files }))
    else (returned tt, (p, w))

-- the parent in xdaemon
unfoldable pub leave_daemon : Option (List ℕ) → Cmd (Unit {0})
leave_daemon pid_file = do write_pid pid_file; exit 0

unfoldable pub setsid : Cmd (Unit {0})
setsid p w = (returned tt, (record p { leads_session = true }, w))

unfoldable pub standard_null : Option ℕ → Cmd (Unit {0})
standard_null none = pure tt
standard_null (some fd) = do dup2 fd 0; dup2 fd 1; dup2 fd 2; close fd

-- the child process in xdaemon, if there is one
unfoldable pub enter_daemon : Option (Outcome (Unit {0})) → Cmd ℤ
enter_daemon none = pure (negsuc 0)
enter_daemon (some parent) = do setsid; chdir_root; fd ← open_null; standard_null fd; pure (pos 0)

-- daemonize: the process that returns is the child, and the other one is the parent.
unfoldable pub xdaemon : Option (List ℕ) → Cmd ℤ
xdaemon pid_file = do parent ← fork (leave_daemon pid_file); enter_daemon parent
