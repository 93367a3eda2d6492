-- ===== src/Process/Tests.antt =====
-- The process control with a terminal on the three standard descriptors.
use udprelayd.Base.{
  ℕ, ◌≡◌, refl, ◌&&◌, not, true, false, Option, none, some, List, [], ◌∷◌, ◌==◌, ltb, if◌then◌else◌,
}
use udprelayd.Base.Int.{pos, negsuc}
use udprelayd.Unix.{
  other_file, read_end, Slot, slot, lowest, Process, World, Outcome, returned, undefined, writes_to,
  is_end,
}
use udprelayd.Process.{spawn_and_wait, pipe_open, spawn_bg, xdaemon}
use udprelayd.Process.Pipes.{null_slot, with_pipe}
use udprelayd.Process.Detach.{recorded, xdaemon-fds}
use udprelayd.Process.Spawn.{status_of, spawn_and_wait-status, pipe_open-fds}
use udprelayd.Process.Verdict.{in_background, spawn_bg-result, spawn_bg-fds}

abbrev terminal : Option Slot
terminal = some (record { file = other_file 1; cloexec = false })

abbrev shell : Process
shell = record {
  fds = terminal ∷ terminal ∷ terminal ∷ [];
  env = [];
  at_root = false;
  leads_session = false;
}

-- Descriptor 0 is closed.
abbrev no_stdin : Process
no_stdin = record shell { fds = none ∷ terminal ∷ terminal ∷ [] }

-- Every call succeeds, and the program `1` exits with 3; no other can be executed.
abbrev execs : List (List ℕ) → Option ℕ
execs ((b ∷ []) ∷ args) = if b == 1 then some 3 else none
execs _ = none

abbrev world : World
world = record {
  fork_answer = λ n. true;
  forks = 0;
  pipe_answer = true;
  open_answer = true;
  fopen_answer = true;
  exec_answer = execs;
  read_fails = false;
  pipes = 0;
  contents = λ n. [];
  held = λ n. false;
  pid_files = [];
}

abbrev no_fork : World
no_fork = record world { fork_answer = λ n. false }

abbrev program : List (List ℕ)
program = (1 ∷ []) ∷ []

shell-silent : writes_to 0 shell.fds ≡ false
unfolding writes_to is_end
shell-silent = refl

xdaemon-fds_example :
    let (o, (p', w')) = xdaemon (some (7 ∷ [])) no_stdin world in
    (o ≡ returned (pos 0))
    × (p'.leads_session ≡ true)
    × (p'.at_root ≡ true)
    × ((n : ℕ)
        → slot p'.fds n ≡ (
            if n == lowest no_stdin.fds
            then none
            else if ltb n 3
            then some null_slot
            else slot no_stdin.fds n))
    × (w'.pid_files ≡ recorded (some (7 ∷ [])) world)
xdaemon-fds_example = xdaemon-fds (some (7 ∷ [])) no_stdin world refl refl

spawn_and_wait-status_example :
    let (o, (p', w')) = spawn_and_wait program shell world in
    (o ≡ (if world.fork_answer 0 then returned (status_of (execs program)) else undefined))
    × (p' ≡ shell)
spawn_and_wait-status_example = spawn_and_wait-status program shell world

pipe_open-fds_example :
    let (o, (p', w')) = pipe_open program shell world in
    ((child : Option (Outcome (Unit {0}))) × (o ≡ returned (pos (lowest shell.fds), child)))
    × (slot shell.fds (lowest shell.fds) ≡ none)
    × ((n : ℕ)
        → slot p'.fds n ≡ (
            if n == lowest shell.fds
            then some (record { file = read_end 0; cloexec = true })
            else slot shell.fds n))
pipe_open-fds_example = pipe_open-fds program shell world refl

spawn_bg-result_example :
    (spawn_bg program [] shell world).0
    ≡ returned (if in_background program world then pos 0 else negsuc 0)
spawn_bg-result_example = spawn_bg-result program [] shell world shell-silent

spawn_bg-fds_example : slot (spawn_bg program [] shell no_fork).1.0.fds 3 ≡ (
    if no_fork.pipe_answer && not (no_fork.fork_answer no_fork.forks)
    then slot (with_pipe no_fork.pipes shell.fds) 3
    else slot shell.fds 3)
spawn_bg-fds_example = spawn_bg-fds program [] shell no_fork shell-silent 3
