-- ===== src/Process/Pipes.antt =====
-- utils.c: what pipe, fork and the calls on descriptors do to a process's table.
use udprelayd.Base.{ℕ, ◌+◌, ◌<◌, ◌≡◌, refl, true, false, none, some, [], ◌==◌, if◌then◌else◌, arith}
use udprelayd.Unix.{
  read_end, write_end, null_device, Slot, Table, slot, put, lowest, Process, World, returned, Cmd,
  then_run, end_other, fork, set_slot, close, new_fd, set_at, pipe, open_null, copy, dup2, mark,
  set_cloexec,
}
use udprelayd.Process.Table.{slot-put, slot-lowest, lowest-put}

abbrev pub reading : ℕ → Slot
reading id = record { file = read_end id; cloexec = false }

abbrev pub writing : ℕ → Slot
writing id = record { file = write_end id; cloexec = false }

abbrev pub null_slot : Slot
null_slot = record { file = null_device; cloexec = false }

-- The two descriptors that pipe makes, and the table with them.
abbrev with_reader : ℕ → Table → Table
with_reader id fds = put fds (lowest fds) (some (reading id))

abbrev pub reader_of : Table → ℕ
reader_of fds = lowest fds

abbrev pub writer_of : ℕ → Table → ℕ
writer_of id fds = lowest (with_reader id fds)

abbrev pub with_pipe : ℕ → Table → Table
with_pipe id fds = put (with_reader id fds) (writer_of id fds) (some (writing id))

abbrev pub with_null : Table → Table
with_null fds = put fds (lowest fds) (some null_slot)

abbrev pub dup_to : ℕ → ℕ → Table → Table
dup_to new old fds = if old == new then fds else copy new fds (slot fds old)

abbrev pub fresh_pipe : World → World
fresh_pipe w = record w {
  pipes = w.pipes + 1;
  contents = set_at w.contents w.pipes [];
  held = set_at w.held w.pipes false;
}

module _ (id : ℕ) (fds : Table) where
  -- Both are closed before, and they differ.
  pub ends-order : reader_of fds < writer_of id fds
  ends-order = lowest-put fds (reading id)

  pub reader-closed : slot fds (reader_of fds) ≡ none
  reader-closed = slot-lowest fds

  pub writer-closed : slot fds (writer_of id fds) ≡ none
  writer-closed = ground (
    arith,
    ends-order,
    slot-lowest (with_reader id fds),
    slot-put fds (lowest fds) (some (reading id)) (writer_of id fds),
  )

  pub slot-with_pipe :
      (n : ℕ)
      → slot (with_pipe id fds) n ≡ (
          if n == writer_of id fds
          then some (writing id)
          else if n == reader_of fds
          then some (reading id)
          else slot fds n)
  slot-with_pipe n = ground (
    arith,
    slot-put fds (lowest fds) (some (reading id)) n,
    slot-put (with_reader id fds) (writer_of id fds) (some (writing id)) n,
  )

pub pipe-run :
    (p : Process) (w : World)
    → w.pipe_answer ≡ true
    → pipe p w ≡ (
      returned (some (reader_of p.fds, writer_of w.pipes p.fds)),
      (record p { fds = with_pipe w.pipes p.fds }, fresh_pipe w),
    )
unfolding pipe new_fd then_run
pipe-run p w e = ground arith

pub pipe-none :
    (p : Process) (w : World) → w.pipe_answer ≡ false → pipe p w ≡ (returned none, (p, w))
unfolding pipe
pipe-none p w e = ground arith

pub open_null-run :
    (p : Process) (w : World)
    → w.open_answer ≡ true
    → open_null p w ≡ (returned (some (lowest p.fds)), (record p { fds = with_null p.fds }, w))
unfolding open_null new_fd then_run
open_null-run p w e = ground arith

pub open_null-none :
    (p : Process) (w : World) → w.open_answer ≡ false → open_null p w ≡ (returned none, (p, w))
unfolding open_null
open_null-none p w e = ground arith

abbrev pub counted : World → World
counted w = record w { forks = w.forks + 1 }

pub fork-run :
    {A : Type 0} (other : Cmd A) (p : Process) (w : World)
    → w.fork_answer w.forks ≡ true
    → fork other p w ≡ end_other p (other p (counted w))
unfolding fork
fork-run other p w e = rw e

pub fork-none :
    {A : Type 0} (other : Cmd A) (p : Process) (w : World)
    → w.fork_answer w.forks ≡ false
    → fork other p w ≡ (returned none, (p, counted w))
unfolding fork
fork-none other p w e = rw e

module _ (fd : ℕ) (p : Process) (w : World) where
  pub dup2-run :
      (new : ℕ) → dup2 fd new p w ≡ (returned tt, (record p { fds = dup_to new fd p.fds }, w))
  unfolding dup2
  dup2-run new = ground arith

  pub close-run : close fd p w ≡ (returned tt, (record p { fds = put p.fds fd none }, w))
  unfolding close set_slot
  close-run = refl

  pub set_cloexec-run :
      set_cloexec fd p w
      ≡ (returned tt, (record p { fds = put p.fds fd (mark (slot p.fds fd)) }, w))
  unfolding set_cloexec set_slot
  set_cloexec-run = refl
