-- ===== src/Process/Spawn.antt =====
-- spawn_and_wait and pipe_open of utils.c.
use udprelayd.Base.{
  ℕ, ◌≡◌, refl, true, false, Option, none, some, Option-cases, List, ◌==◌, ◌%◌, if◌then◌else◌,
  arith, Bool-cases, inl, inr,
}
use udprelayd.Base.Int.{pos}
use udprelayd.Unix.{
  Table, slot, put, lowest, Process, World, Outcome, returned, undefined, Cmd, then_run, end_other,
  fork, mark, read_end, execvp, exec_result, wait_status,
}
use udprelayd.Process.{run_program, spawn_and_wait, pipe_child, pipe_opened, pipe_open}
use udprelayd.Process.Table.{slot-put}
use udprelayd.Process.Pipes.{
  reader_of, writer_of, with_pipe, fresh_pipe, ends-order, reader-closed, writer-closed,
  slot-with_pipe, pipe-run, fork-run, fork-none, close-run, set_cloexec-run, counted,
}

-- What the parent sees of a program that is run.
abbrev pub status_of : Option ℕ → ℕ
status_of none = 1
status_of (some status) = status % 256

run_program-wait :
    (argv : List (List ℕ)) (p : Process) (w : World)
    → (wait_status (some (run_program argv p w).0))
      ≡ (λ p w'. (returned (status_of (w.exec_answer argv)), (p, w')))
unfolding run_program execvp exec_result then_run wait_status
run_program-wait argv p w = elim (Option-cases (w.exec_answer argv)) [
  | inl e ↦ rw e refl
  | inr (a, e) ↦ rw e refl
]

-- spawn_and_wait returns the exit status of the program, cut to a byte, or 1 if it cannot be
-- executed, and its table of descriptors stays. If the fork fails, it uses a status that no call has
-- set.
pub spawn_and_wait-status :
    (argv : List (List ℕ)) (p : Process) (w : World)
    → let (o, (p', w')) = spawn_and_wait argv p w in
      (o ≡ (if w.fork_answer w.forks then returned (status_of (w.exec_answer argv)) else undefined))
      × (p' ≡ p)
unfolding spawn_and_wait end_other then_run wait_status
spawn_and_wait-status argv p w = elim (Bool-cases (w.fork_answer w.forks)) [
  | inl e ↦
      rw (fork-run (run_program argv) p w e)
        (rw e (rw (run_program-wait argv p (counted w)) (refl, refl)))
  | inr e ↦ rw (fork-none (run_program argv) p w e) (rw (e, wait_status) (refl, refl))
]

fork-parent :
    {A : Type 0} (other : Cmd A) (p : Process) (w : World)
    → (child : Option (Outcome A)) × (w' : World) × (fork other p w ≡ (returned child, (p, w')))
unfolding end_other
fork-parent other p w = elim (Bool-cases (w.fork_answer w.forks)) [
  | inl e ↦
      (some (other p (counted w)).0, (end_other p (other p (counted w))).1.1, fork-run other p w e)
  | inr e ↦ (none, counted w, fork-none other p w e)
]

abbrev closed_end : ℕ → Table → Table
closed_end writer fds = put fds writer none

pipe_opened-slot :
    (id : ℕ) (fds : Table) (n : ℕ)
    → let r = reader_of fds in
      let left = closed_end (writer_of id fds) (with_pipe id fds) in
      slot (put left r (mark (slot left r))) n
      ≡ (if n == r then some (record { file = read_end id; cloexec = true }) else slot fds n)
pipe_opened-slot id fds n =
    let r = reader_of fds in
    let left = closed_end (writer_of id fds) (with_pipe id fds) in
    let here : slot left r ≡ some (record { file = read_end id; cloexec = false }) = ground (
      arith,
      ends-order id fds,
      slot-put (with_pipe id fds) (writer_of id fds) none r,
      slot-with_pipe id fds r,
    ) in
    rw here (
      ground (
        arith,
        writer-closed id fds,
        slot-put left r (some (record { file = read_end id; cloexec = true })) n,
        slot-put (with_pipe id fds) (writer_of id fds) none n,
        slot-with_pipe id fds n,
      ))

-- Once it has a pipe, pipe_open returns the read end, a descriptor that was closed before; it is to be
-- closed in programs that the process executes, and every other descriptor is as before. This holds
-- whether or not there is a child.
pub pipe_open-fds :
    (argv : List (List ℕ)) (p : Process) (w : World)
    → w.pipe_answer ≡ true
    → let (o, (p', w')) = pipe_open argv p w in
      ((child : Option (Outcome (Unit {0}))) × (o ≡ returned (pos (lowest p.fds), child)))
      × (slot p.fds (lowest p.fds) ≡ none)
      × ((n : ℕ)
          → slot p'.fds n ≡ (
              if n == lowest p.fds
              then some (record { file = read_end w.pipes; cloexec = true })
              else slot p.fds n))
unfolding pipe_open pipe_opened then_run
pipe_open-fds argv p w piped =
    let q = record p { fds = with_pipe w.pipes p.fds } in
    let r = reader_of p.fds in
    let wr = writer_of w.pipes p.fds in
    let (child, w', forked) = fork-parent (pipe_child argv r wr) q (fresh_pipe w) in
    rw (pipe-run p w piped) (
      rw forked (
        rw (close-run wr q w') (
          rw (set_cloexec-run r (record q { fds = put q.fds wr none }) w')
            ((child, refl), reader-closed w.pipes p.fds, pipe_opened-slot w.pipes p.fds))))
