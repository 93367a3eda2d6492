-- ===== src/Program/Detached.antt =====
-- main: `if(detach) xdaemon(pid_file);`, and what follows it, in the process of Unix. What the loop
-- does to the process's descriptors is in the log of Os; that a socket of the daemon is an entry of
-- the process's table is a hypothesis where it matters.
use udprelayd.Base.{
  ℕ, ◌<◌, ◌≡◌, refl, ◌∙◌, Bool, true, false, Bool-cases, inl, inr, Option, none, some, List, [],
  ◌∷◌, ◌==◌, ltb, if◌then◌else◌, arith,
}
use udprelayd.Base.Int.{pos, negsuc}
use udprelayd.Lookup.Tree.{RbTree}
use udprelayd.Os.{Kernel, Event, sent, received, closed}
use udprelayd.Daemon.{Udprelay}
use udprelayd.Daemon.Loop.{Selected, main_loop}
use udprelayd.Net.{Sys}
use udprelayd.Unix.{
  Slot, slot, put, close, set_slot, lowest, Process, World, Outcome, returned, Cmd, pure, exit,
  ◌>>=◌, ◌>>◌, then_run, end_other,
}
use udprelayd.Process.{xdaemon, enter_daemon, leave_daemon, setsid, chdir_root, standard_null}
use udprelayd.Process.Table.{slot-put, slot-lowest}
use udprelayd.Process.Detach.{xdaemon-fds, leave_daemon-open}
use udprelayd.Process.Pipes.{null_slot, counted, fork-run, fork-none, open_null-none}
use udprelayd.Program.Start.{
  Options, Exit, exit_success, exit_failure, running, ending, with_daemon,
}
use udprelayd.Program.Stops.{Released, ending-Released}
use udprelayd.Setup.Counts.{occurrences}
use udprelayd.Descriptors.{closes}
use udprelayd.Descriptors.Rounds.{state_fds}

-- The result of xdaemon is not used.
unfoldable pub detach_if : Options → Cmd (Unit {0})
detach_if o = if o.detach then (do result ← xdaemon o.pid_file; pure tt) else pure tt

-- The process makes the calls of `close` that the log has.
unfoldable pub close_logged : List Event → Cmd (Unit {0})
close_logged [] = pure tt
close_logged (closed fd ∷ log) = do close fd; close_logged log
close_logged (_ ∷ log) = close_logged log

-- With what the loop and the cleanup have done, none of which but the closing touches the process.
unfoldable pub in_process : Option (Exit × Kernel) → Cmd (Option (Exit × Kernel))
in_process none = pure none
in_process (some (e, k)) = do close_logged k.log; pure (some (e, k))

abbrev pub at_start : Kernel → Kernel
at_start k = record k { log = [] }

-- main from the result of udprelay_init on, with the exit or the state after the last input.
module _ (t : RbTree) (inputs : List (Selected × Bool)) (k : Kernel) where
  unfoldable pub launch : Options → Option (Udprelay t.T) → Cmd (Option (Exit × Kernel))
  launch o none = exit 1
  launch o (some u) = do detach_if o; in_process (ending t (main_loop t inputs u (at_start k)))

-- A descriptor above the standard ones that is open is as before.
abbrev pub Kept : Process → Process → Type 0
Kept p p' = (fd : ℕ) (x : Slot) → 2 < fd → slot p.fds fd ≡ some x → slot p'.fds fd ≡ some x

kept_above :
    (p : Process) (y : Option Slot) (fd : ℕ) (x : Slot)
    → 2 < fd
    → slot p.fds fd ≡ some x
    → (if fd == lowest p.fds then none else if ltb fd 3 then y else slot p.fds fd) ≡ some x
kept_above p y fd x above e = ground (arith, slot-lowest p.fds)

-- The process goes on, and keeps what is above its standard descriptors.
abbrev pub GoesOn : {A : Type 0} → Process → Outcome A × (Process × World) → Type 0
GoesOn {A} p (o, (p', w)) = ((a : A) × (o ≡ returned a)) × Kept p p'

xdaemon-no_fork :
    (pid_file : Option (List ℕ)) (p : Process) (w : World)
    → w.fork_answer w.forks ≡ false
    → GoesOn p (xdaemon pid_file p w)
unfolding xdaemon enter_daemon then_run
xdaemon-no_fork pid_file p w none_left =
    rw (fork-none (leave_daemon pid_file) p w none_left) ((negsuc 0, refl), λ fd x above e. e)

enter_daemon-no_null :
    (parent : Outcome (Unit {0})) (p : Process) (w : World)
    → w.open_answer ≡ false
    → enter_daemon (some parent) p w
      ≡ (returned (pos 0), (record p { at_root = true; leads_session = true }, w))
unfolding enter_daemon setsid chdir_root standard_null then_run
enter_daemon-no_null parent p w fails =
    rw (open_null-none (record p { at_root = true; leads_session = true }) w fails) refl

xdaemon-no_null :
    (pid_file : Option (List ℕ)) (p : Process) (w : World)
    → w.fork_answer w.forks ≡ true
    → w.open_answer ≡ false
    → GoesOn p (xdaemon pid_file p w)
unfolding xdaemon end_other then_run
xdaemon-no_null pid_file p w forks fails =
    let before = counted w in
    let (parent, (left, shared)) = leave_daemon pid_file p before in
    let after = (end_other p (parent, (left, shared))).1.1 in
    rw (fork-run (leave_daemon pid_file) p w forks) (
      rw (enter_daemon-no_null parent p after (leave_daemon-open pid_file p before ∙ fails))
        ((pos 0, refl), λ fd x above e. e))

xdaemon-GoesOn :
    (pid_file : Option (List ℕ)) (p : Process) (w : World) → GoesOn p (xdaemon pid_file p w)
xdaemon-GoesOn pid_file p w = elim (Bool-cases (w.fork_answer w.forks)) [
  | inr no_fork ↦ xdaemon-no_fork pid_file p w no_fork
  | inl forks ↦ elim (Bool-cases w.open_answer) [
    | inr no_null ↦ xdaemon-no_null pid_file p w forks no_null
    | inl opens ↦
        let (result, session, root, slots, files) = xdaemon-fds pid_file p w forks opens in
        ((pos 0, result), λ fd x above e. slots fd ∙ kept_above p (some null_slot) fd x above e)
  ]
]

detach_if-Kept :
    (o : Options) (p : Process) (w : World)
    → let r = detach_if o p w in (r.0 ≡ returned tt) × Kept p r.1.0
unfolding detach_if then_run
detach_if-Kept o p w = elim (Bool-cases o.detach) [
  | inr stays ↦ rw stays (refl, λ fd x above e. e)
  | inl leaves ↦ let ((n, e), kept) = xdaemon-GoesOn o.pid_file p w in rw leaves (rw e (refl, kept))
]

-- A slot after the closing of the log.
close_logged-slot :
    (log : List Event) (p : Process) (w : World) (fd : ℕ)
    → let r = close_logged log p w in
      (r.0 ≡ returned tt)
      × (slot r.1.0.fds fd ≡ (if closes fd log == 0 then slot p.fds fd else none))
unfolding close_logged closes close set_slot then_run
close_logged-slot [] p w fd = (refl, refl)
close_logged-slot (sent a b c d ∷ log) p w fd = close_logged-slot log p w fd
close_logged-slot (received a ∷ log) p w fd = close_logged-slot log p w fd
close_logged-slot (closed a ∷ log) p w fd =
    let (done, after) = close_logged-slot log (record p { fds = put p.fds a none }) w fd in
    (done, after ∙ ground (arith, slot-put p.fds a none fd))

-- What is known of the descriptor at the end, and of how often it has been closed.
abbrev pub ClosedAs : Exit → ℕ → ℕ → Type 0
ClosedAs running n held = Unit
ClosedAs _ n held = n ≡ held

abbrev pub Left : {T : Type 0} → Udprelay T → ℕ → Slot → Option (Exit × Kernel) → Process → Type 0
Left u fd x none p = Unit
Left u fd x (some (e, k)) p =
    (slot p.fds fd ≡ (if closes fd k.log == 0 then some x else none))
    × ClosedAs e (closes fd k.log) (occurrences fd (state_fds u))

ending-ClosedAs :
    (t : RbTree) (inputs : List (Selected × Bool)) (k k' : Kernel) (u : Udprelay t.T) (e : Exit)
    (fd : ℕ)
    → ending t (main_loop t inputs u (at_start k)) ≡ some (e, k')
    → ClosedAs e (closes fd k'.log) (occurrences fd (state_fds u))
unfolding closes
ending-ClosedAs t inputs k k' u e fd run =
    let released =
      ending-Released t inputs u (at_start k) (main_loop t inputs u (at_start k)) refl in
    ended e (rw run at released)
  where
    ended :
        (e : Exit)
        → Released t (at_start k) (state_fds u) (some (e, k'))
        → ClosedAs e (closes fd k'.log) (occurrences fd (state_fds u))
    ended running r = tt
    ended exit_success r = let e = r tt fd in omega (arith, e)
    ended exit_failure r = let e = r tt fd in omega (arith, e)

in_process-Left :
    {T : Type 0} (u : Udprelay T) (res : Option (Exit × Kernel)) (p : Process) (w : World) (fd : ℕ)
    (x : Slot)
    → slot p.fds fd ≡ some x
    → ((e : Exit) (k : Kernel)
        → res ≡ some (e, k)
        → ClosedAs e (closes fd k.log) (occurrences fd (state_fds u)))
    → let r = in_process res p w in (r.0 ≡ returned res) × Left u fd x res r.1.0
unfolding in_process then_run
in_process-Left u none p w fd x is_open known = (refl, tt)
in_process-Left u (some (e, k)) p w fd x is_open known =
    let (done, after) = close_logged-slot k.log p w fd in
    rw done (refl, (after ∙ rw is_open refl, known e k refl))

-- Whatever the options are, and whether fork, the opening of /dev/null and that of the pid file
-- succeed or not, main goes on from a started daemon to the end that the main loop gives it without
-- the detaching. A descriptor above the standard ones that was open then refers to what it did, unless
-- the daemon has closed it; and when main has ended, it has closed those that the daemon has held, as
-- often as it held them, and no other.
pub launch-Left :
    (t : RbTree) (inputs : List (Selected × Bool)) (s : Sys) (k : Kernel) (o : Options)
    (u : Udprelay t.T) (p : Process) (w : World) (fd : ℕ) (x : Slot)
    → 2 < fd
    → slot p.fds fd ≡ some x
    → let r = launch t inputs k o (some u) p w in
      let res = with_daemon t inputs s (at_start k) (some u) in
      (r.0 ≡ returned res) × Left u fd x res r.1.0
unfolding launch with_daemon then_run
launch-Left t inputs s k o u p w fd x above is_open =
    let (e, kept) = detach_if-Kept o p w in
    let (p', w') = (detach_if o p w).1 in
    rw e (
      in_process-Left u (ending t (main_loop t inputs u (at_start k))) p' w' fd x
        (kept fd x above is_open) (λ e k' run. ending-ClosedAs t inputs k k' u e fd run))
