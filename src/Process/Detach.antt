-- ===== src/Process/Detach.antt =====
-- xdaemon of utils.c.
use udprelayd.Base.{
  ℕ, ◌+◌, ◌≡◌, refl, ◌∙◌, true, Option, none, some, List, ◌∷◌, ◌==◌, ltb, if◌then◌else◌, arith,
}
use udprelayd.Base.Int.{pos}
use udprelayd.Unix.{
  Table, slot, put, lowest, Process, World, Outcome, returned, then_run, end_other, set_slot, close,
}
use udprelayd.Process.{
  chdir_root, write_pid, leave_daemon, setsid, standard_null, enter_daemon, xdaemon,
}
use udprelayd.Process.Table.{slot-put}
use udprelayd.Process.Pipes.{null_slot, with_null, dup_to, dup2-run, fork-run, open_null-run}

-- The table after the calls of xdaemon in the child.
abbrev detached : ℕ → Table → Table
detached fd fds = put (dup_to 2 fd (dup_to 1 fd (dup_to 0 fd fds))) fd none

dup_to-slot :
    (new fd : ℕ) (fds : Table)
    → slot fds fd ≡ some null_slot
    → (n : ℕ) → slot (dup_to new fd fds) n ≡ (if n == new then some null_slot else slot fds n)
dup_to-slot new fd fds e n = ground (arith, slot-put fds new (some null_slot) n)

-- A duplicate made, the original still stands.
dup_to-original :
    (new fd : ℕ) (fds : Table)
    → slot fds fd ≡ some null_slot
    → slot (dup_to new fd fds) fd ≡ some null_slot
dup_to-original new fd fds e = ground (arith, dup_to-slot new fd fds e fd)

detached-slot :
    (fds : Table) (n : ℕ)
    → slot (detached (lowest fds) (with_null fds)) n
      ≡ (if n == lowest fds then none else if ltb n 3 then some null_slot else slot fds n)
detached-slot fds n =
    let fd = lowest fds in
    let e = slot-put fds fd (some null_slot) fd in
    let e₀ : slot (with_null fds) fd ≡ some null_slot = ground arith in
    let e₁ = dup_to-original 0 fd (with_null fds) e₀ in
    let e₂ = dup_to-original 1 fd (dup_to 0 fd (with_null fds)) e₁ in
    ground (
      arith,
      slot-put fds fd (some null_slot) n,
      dup_to-slot 0 fd (with_null fds) e₀ n,
      dup_to-slot 1 fd (dup_to 0 fd (with_null fds)) e₁ n,
      dup_to-slot 2 fd (dup_to 1 fd (dup_to 0 fd (with_null fds))) e₂ n,
      slot-put (dup_to 2 fd (dup_to 1 fd (dup_to 0 fd (with_null fds)))) fd none n,
    )

standard_null-run :
    (fd : ℕ) (p : Process) (w : World)
    → standard_null (some fd) p w ≡ (returned tt, (record p { fds = detached fd p.fds }, w))
unfolding standard_null then_run close set_slot
standard_null-run fd p w =
    let one = record p { fds = dup_to 0 fd p.fds } in
    let two = record one { fds = dup_to 1 fd one.fds } in
    rw (dup2-run fd p w 0) (rw (dup2-run fd one w 1) (rw (dup2-run fd two w 2) refl))

-- The pid file, if it can be written.
abbrev pub recorded : Option (List ℕ) → World → List (List ℕ × ℕ)
recorded none w = w.pid_files
recorded (some file) w = if w.fopen_answer then (file, w.forks + 1) ∷ w.pid_files else w.pid_files

leave_daemon-pid_files :
    (pid_file : Option (List ℕ)) (p : Process) (w : World)
    → (leave_daemon pid_file p (record w { forks = w.forks + 1 })).1.1.pid_files
      ≡ recorded pid_file w
unfolding leave_daemon write_pid then_run
leave_daemon-pid_files none p w = refl
leave_daemon-pid_files (some file) p w = ground arith

pub leave_daemon-open :
    (pid_file : Option (List ℕ)) (p : Process) (w : World)
    → (leave_daemon pid_file p w).1.1.open_answer ≡ w.open_answer
unfolding leave_daemon write_pid then_run
leave_daemon-open none p w = refl
leave_daemon-open (some file) p w = ground arith

enter_daemon-run :
    (parent : Outcome (Unit {0})) (p : Process) (w : World)
    → w.open_answer ≡ true
    → enter_daemon (some parent) p w ≡ (
      returned (pos 0),
      (
        record p {
          fds = detached (lowest p.fds) (with_null p.fds);
          at_root = true;
          leads_session = true;
        },
        w,
      ),
    )
unfolding enter_daemon setsid chdir_root then_run
enter_daemon-run parent p w opens =
    let q = record p { at_root = true; leads_session = true } in
    rw (open_null-run q w opens)
      (rw (standard_null-run (lowest p.fds) (record q { fds = with_null p.fds }) w) refl)

-- If fork and the opening of /dev/null succeed, xdaemon returns 0 in the child, which leads a session
-- and stands at the root. There, the lowest descriptor that was closed is closed, the other ones of 0,
-- 1 and 2 are /dev/null, and those above are as before; the pid file, if there is one and it can be
-- opened, has the child's number.
pub xdaemon-fds :
    (pid_file : Option (List ℕ)) (p : Process) (w : World)
    → w.fork_answer w.forks ≡ true
    → w.open_answer ≡ true
    → let (o, (p', w')) = xdaemon pid_file p w in
      (o ≡ returned (pos 0))
      × (p'.leads_session ≡ true)
      × (p'.at_root ≡ true)
      × ((n : ℕ)
          → slot p'.fds n ≡ (
              if n == lowest p.fds then none else if ltb n 3 then some null_slot else slot p.fds n))
      × (w'.pid_files ≡ recorded pid_file w)
unfolding xdaemon end_other then_run
xdaemon-fds pid_file p w forks opens =
    let before = record w { forks = w.forks + 1 } in
    let (parent, (left, shared)) = leave_daemon pid_file p before in
    let after = (end_other p (parent, (left, shared))).1.1 in
    rw (fork-run (leave_daemon pid_file) p w forks) (
      rw (enter_daemon-run parent p after (leave_daemon-open pid_file p before ∙ opens))
        (refl, refl, refl, detached-slot p.fds, leave_daemon-pid_files pid_file p w))
