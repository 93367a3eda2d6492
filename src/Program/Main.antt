-- ===== src/Program/Main.antt =====
-- main, from its options to its end, in its process.
use udprelayd.Base.{
  ℕ, ◌≡◌, refl, Bool, true, false, ◌||◌, Option, none, some, List, [], ◌∷◌, if◌then◌else◌,
}
use udprelayd.Config.{Config, parse_config}
use udprelayd.Config.Total.{IsNullOrValid, parse_config-IsValid}
use udprelayd.Lookup.Tree.{RbTree}
use udprelayd.Os.{Kernel}
use udprelayd.Daemon.{Udprelay}
use udprelayd.Daemon.Loop.{Selected}
use udprelayd.Net.{Sys, pure}
use udprelayd.Setup.{udprelay_init}
use udprelayd.Setup.Results.{Sized}
use udprelayd.Setup.Start.{IsStart, udprelay_init-IsStart}
use udprelayd.Unix.{Process, World, Outcome, exited, Cmd, exit}
use udprelayd.Unix
use udprelayd.Program.Start.{
  Flag, detach_option, pidfile_option, help_option, unknown_option, Options, options, Exit,
}
use udprelayd.Program.Detached.{launch}

abbrev no_options : Options
no_options = record { detach = false; pid_file = none }

module _ (t : RbTree) (inputs : List (Selected × Bool)) (s : Sys) (k : Kernel) where
  -- `none` is a fault of the parser.
  unfoldable pub with_config : Options → Option (Option Config) → Cmd (Option (Exit × Kernel))
  with_config o none = Unix.pure none
  with_config o (some config) = launch t inputs k o (udprelay_init t config s).0

  -- The first argument that is no option names the configuration.
  unfoldable pub with_operands :
      (List ℕ → Option (List ℕ)) → List (List ℕ) → Option Options → Cmd (Option (Exit × Kernel))
  with_operands files operands none = exit 0
  with_operands files [] (some o) = exit 1
  with_operands files (conf_file ∷ operands) (some o) =
      with_config o (parse_config (files conf_file))

  unfoldable pub main :
      List Flag → List (List ℕ) → (List ℕ → Option (List ℕ)) → Cmd (Option (Exit × Kernel))
  main flags operands files = with_operands files operands (options flags no_options)

-- What is asked for: the usage, by `-h` or an option that there is not, the detaching, and the pid
-- file, of which the last counts.
unfoldable pub asks_usage : List Flag → Bool
asks_usage [] = false
asks_usage (help_option ∷ flags) = true
asks_usage (unknown_option ∷ flags) = true
asks_usage (_ ∷ flags) = asks_usage flags

unfoldable pub asks_detach : List Flag → Bool
asks_detach [] = false
asks_detach (detach_option ∷ flags) = true
asks_detach (_ ∷ flags) = asks_detach flags

abbrev or_else : Option (List ℕ) → Option (List ℕ) → Option (List ℕ)
or_else none b = b
or_else (some a) b = some a

unfoldable pub last_pid_file : List Flag → Option (List ℕ)
last_pid_file [] = none
last_pid_file (pidfile_option file ∷ flags) = or_else (last_pid_file flags) (some file)
last_pid_file (_ ∷ flags) = last_pid_file flags

abbrev pub asked : List Flag → Options
asked flags = record { detach = asks_detach flags; pid_file = last_pid_file flags }

or_false : (b : Bool) → (b || false) ≡ b
or_false true = refl
or_false false = refl

or_true : (b : Bool) → (b || true) ≡ true
or_true true = refl
or_true false = refl

or_else-none : (a : Option (List ℕ)) → or_else a none ≡ a
or_else-none none = refl
or_else-none (some a) = refl

or_else-twice :
    (a : Option (List ℕ)) (b : List ℕ) (c : Option (List ℕ))
    → or_else (or_else a (some b)) c ≡ or_else a (some b)
or_else-twice none b c = refl
or_else-twice (some a) b c = refl

-- The loop over the options finds what is asked for.
options-asked :
    (flags : List Flag) (o : Options)
    → options flags o ≡ (
        if asks_usage flags
        then none
        else some (record {
          detach = o.detach || asks_detach flags;
          pid_file = or_else (last_pid_file flags) o.pid_file;
        }))
unfolding options asks_usage asks_detach last_pid_file
options-asked [] o = rw (or_false o.detach) refl
options-asked (detach_option ∷ flags) o =
    rw (options-asked flags (record o { detach = true }), or_true o.detach) refl
options-asked (pidfile_option file ∷ flags) o =
    rw
      (
        options-asked flags (record o { pid_file = some file }),
        or_else-twice (last_pid_file flags) file o.pid_file,
      )
      refl
options-asked (help_option ∷ flags) o = refl
options-asked (unknown_option ∷ flags) o = refl

module _ (t : RbTree) (inputs : List (Selected × Bool)) (s : Sys) (k : Kernel) (flags : List Flag)
    (files : List ℕ → Option (List ℕ)) (p : Process) (w : World) where
  abbrev Result : Type 0
  Result = Outcome (Option (Exit × Kernel)) × (Process × World)

  -- With what udprelay_init makes of the configuration.
  abbrev pub Launches : Config → Option (Udprelay t.T) → Result → Type 0
  Launches config none r = r ≡ (exited 1, (p, w))
  Launches config (some u) r =
      IsStart t config u × (r ≡ launch t inputs k (asked flags) (some u) p w)

  -- With what parse_config makes of the file.
  abbrev pub Configured : Option Config → Result → Type 0
  Configured none r = r ≡ (exited 1, (p, w))
  Configured (some config) r = Launches config (udprelay_init t (some config) s).0 r

  -- Where the usage is asked for or not, with the operands.
  abbrev pub Does : Bool → List (List ℕ) → Result → Type 0
  Does true operands r = r ≡ (exited 0, (p, w))
  Does false [] r = r ≡ (exited 1, (p, w))
  Does false (conf_file ∷ operands) r =
      (result : Option Config) × (parse_config (files conf_file) ≡ some result)
      × IsNullOrValid result
      × Configured result r

  launch-Launches :
      (config : Config) (u : Option (Udprelay t.T))
      → ((u' : Udprelay t.T) → u ≡ some u' → IsStart t config u')
      → Launches config u (launch t inputs k (asked flags) u p w)
  unfolding launch
  launch-Launches config none h = refl
  launch-Launches config (some u) h = (h u refl, refl)

  with_config-Configured :
      (result : Option Config)
      → Sized s
      → Configured result (with_config t inputs s k (asked flags) (some result) p w)
  unfolding with_config udprelay_init pure launch
  with_config-Configured none h = refl
  with_config-Configured (some config) h =
      launch-Launches config (udprelay_init t (some config) s).0
        (λ u e. udprelay_init-IsStart t config s u h e)

  with_operands-Does :
      (operands : List (List ℕ)) (usage : Bool)
      → Sized s
      → Does usage operands (
          with_operands t inputs s k files operands
            (if usage then none else some (asked flags))
            p
            w)
  unfolding with_operands
  with_operands-Does operands true h = refl
  with_operands-Does [] false h = refl
  with_operands-Does (conf_file ∷ operands) false h =
      let (result, e, v) = parse_config-IsValid (files conf_file) in
      (result, e, v, rw e (with_config-Configured result h))

  -- With a resolver that answers no empty address, main exits with 0 and does nothing else if one of
  -- the options asks for the usage or is unknown, and else with 1 if no configuration is named, if
  -- that file gives none, or if udprelay_init fails with it. Otherwise the configuration is complete,
  -- the daemon that udprelay_init returns has its relays, and main goes on to launch it, detached
  -- where an option says so, with the pid file of the last option that names one.
  pub main-Does :
      (operands : List (List ℕ))
      → Sized s
      → Does (asks_usage flags) operands (main t inputs s k flags operands files p w)
  unfolding main
  main-Does operands h =
      rw (options-asked flags no_options, or_else-none (last_pid_file flags))
        (with_operands-Does operands (asks_usage flags) h)
