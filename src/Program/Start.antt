-- ===== src/Program/Start.antt =====
-- main: its options, its exits, and what follows udprelay_init as far as the sockets see it. What
-- getopt_long returns, one result after the other, is an input, and so is what the loop reads of
-- `sigterm_evt`. Detached has the process that main runs in, and Main puts main together.
use udprelayd.Base.{ℕ, Bool, true, Option, none, some, List, [], ◌∷◌}
use udprelayd.Lookup.Tree.{RbTree}
use udprelayd.Os.{Kernel}
use udprelayd.Daemon.{Udprelay}
use udprelayd.Daemon.Loop.{Selected, Step, continue, terminate, main_loop, udprelay_cleanup}
use udprelayd.Net.{Sys}

-- A result of getopt_long.
pub data Flag : Type 0 where
  detach_option : Flag
  pidfile_option : List ℕ → Flag
  help_option : Flag
  unknown_option : Flag

pub record Options : Type 0 where
  pub detach : Bool
  pub pid_file : Option (List ℕ)

-- The loop over the options; `none` is the exit after the usage.
unfoldable pub options : List Flag → Options → Option Options
options [] o = some o
options (detach_option ∷ cs) o = options cs (record o { detach = true })
options (pidfile_option file ∷ cs) o = options cs (record o { pid_file = some file })
options (help_option ∷ cs) o = none
options (unknown_option ∷ cs) o = none

-- How main ends, or that it goes on after its last input.
pub data Exit : Type 0 where
  exit_success : Exit
  exit_failure : Exit
  running : Exit

module _ (t : RbTree) where
  -- From the loop to the end, with the cleanup.
  unfoldable pub ending : Option (Step t.T × Kernel) → Option (Exit × Kernel)
  ending none = none
  ending (some (continue u, k)) = some (running, k)
  ending (some (terminate u, k)) = some (exit_success, (udprelay_cleanup u k).1)

  module _ (inputs : List (Selected × Bool)) (s : Sys) (k : Kernel) where
    unfoldable pub with_daemon : Option (Udprelay t.T) → Option (Exit × Kernel)
    with_daemon none = some (exit_failure, k)
    with_daemon (some u) = ending (main_loop t inputs u k)
