-- ===== src/Unix.antt =====
-- The system calls on processes and descriptors that utils.c makes. A process is its descriptors and
-- some attributes; `fork` runs the other process to its end on a copy of them. The two meet only in
-- `waitpid` and in `read` on a pipe, which wait for what the other does, so that this order stands for
-- every one.
mod Tables
use udprelayd.Base.{
  ℕ, zero, suc, ◌+◌, ◌%◌, Bool, true, false, ◌||◌, Option, none, some, List, [], ◌∷◌, ◌++◌, ◌==◌,
  if◌then◌else◌,
}
use udprelayd.Base.Int.{ℤ, pos, negsuc}
unfoldable pub use Tables.*

pub record Process : Type 0 where
  pub fds : Table
  -- the strings of `putenv`, the latest first
  pub env : List (List ℕ)
  -- `chdir("/")`
  pub at_root : Bool
  -- `setsid()`
  pub leads_session : Bool

-- What the processes share, and what the system calls answer.
pub record World : Type 0 where
  -- whether the n-th fork succeeds
  pub fork_answer : ℕ → Bool
  pub forks : ℕ
  pub pipe_answer : Bool
  -- whether open of /dev/null succeeds
  pub open_answer : Bool
  -- whether fopen of the pid file succeeds
  pub fopen_answer : Bool
  -- a program that cannot be executed, or the status that it exits with in the end
  pub exec_answer : List (List ℕ) → Option ℕ
  -- whether read is interrupted
  pub read_fails : Bool
  -- the number of the next pipe, the bytes in each, and whether a program that goes on holds its
  -- write end
  pub pipes : ℕ
  pub contents : ℕ → List ℕ
  pub held : ℕ → Bool
  pub pid_files : List (List ℕ × ℕ)

-- How a process's part ends: it returns, it exits, or another program takes its place. `undefined` is
-- the use of a value that is not set, and `blocked` a call that never returns.
pub data Outcome (A : Type 0) : Type 0 where
  returned : A → Outcome A
  exited : ℕ → Outcome A
  replaced : ℕ → Outcome A
  undefined : Outcome A
  blocked : Outcome A

abbrev pub Cmd : Type 0 → Type 0
Cmd A = Process → World → Outcome A × (Process × World)

abbrev pub pure : {A : Type 0} → A → Cmd A
pure a p w = (returned a, (p, w))

-- With the outcome of the first command.
unfoldable pub then_run :
    {A B : Type 0} → (A → Cmd B) → Outcome A × (Process × World) → Outcome B × (Process × World)
then_run f (returned a, (p, w)) = f a p w
then_run f (exited n, s) = (exited n, s)
then_run f (replaced n, s) = (replaced n, s)
then_run f (undefined, s) = (undefined, s)
then_run f (blocked, s) = (blocked, s)

infixl 5 ◌>>=◌ ◌>>◌
abbrev pub ◌>>=◌ : {A B : Type 0} → Cmd A → (A → Cmd B) → Cmd B
◌>>=◌ m f p w = then_run f (m p w)

abbrev pub ◌>>◌ : {B : Type 0} → Cmd (Unit {0}) → Cmd B → Cmd B
m >> n = m >>= λ _. n

-- `_exit(n)` and `exit(n)`
abbrev pub exit : {A : Type 0} → ℕ → Cmd A
exit n p w = (exited n, (p, w))

-- The descriptors that are left of a process whose part has ended so.
unfoldable pub left : {A : Type 0} → Outcome A → Table → Table
left (replaced n) fds = drop_cloexec fds
left (returned a) fds = fds
left _ fds = []

unfoldable pub end_other :
    {A : Type 0}
    → Process
    → Outcome A × (Process × World)
    → Outcome (Option (Outcome A)) × (Process × World)
end_other p (o, (p', w)) =
    (returned (some o), (p, record w { held = λ id. w.held id || writes_to id (left o p'.fds) }))

-- `fork`, with what the other process does; the result is how that ends, or that there is none.
unfoldable pub fork : {A : Type 0} → Cmd A → Cmd (Option (Outcome A))
fork other p w =
    let w' = record w { forks = w.forks + 1 } in
    if w.fork_answer w.forks then end_other p (other p w') else (returned none, (p, w'))

-- `WEXITSTATUS` of what `waitpid` finds.
unfoldable pub wait_status : {A : Type 0} → Option (Outcome A) → Cmd ℕ
wait_status (some (exited n)) p w = (returned (n % 256), (p, w))
wait_status (some (replaced n)) p w = (returned (n % 256), (p, w))
wait_status (some (returned a)) p w = (blocked, (p, w))
wait_status (some undefined) p w = (undefined, (p, w))
wait_status (some blocked) p w = (blocked, (p, w))
wait_status none p w = (undefined, (p, w))

unfoldable pub exec_result : Option ℕ → Cmd (Unit {0})
exec_result none p w = (returned tt, (p, w))
exec_result (some status) p w = (replaced status, (p, w))

unfoldable pub execvp : List (List ℕ) → Cmd (Unit {0})
execvp argv p w = exec_result (w.exec_answer argv) p w

unfoldable pub set_slot : ℕ → Option Slot → Cmd (Unit {0})
set_slot fd x p w = (returned tt, (record p { fds = put p.fds fd x }, w))

unfoldable pub close : ℕ → Cmd (Unit {0})
close fd = set_slot fd none

abbrev pub copy : ℕ → Table → Option Slot → Table
copy new fds none = fds
copy new fds (some x) = put fds new (some (record { file = x.file; cloexec = false }))

unfoldable pub dup2 : ℕ → ℕ → Cmd (Unit {0})
dup2 old new p w =
    if old == new
    then (returned tt, (p, w))
    else (returned tt, (record p { fds = copy new p.fds (slot p.fds old) }, w))

abbrev pub mark : Option Slot → Option Slot
mark none = none
mark (some x) = some (record x { cloexec = true })

-- `fcntl(fd, F_SETFD, FD_CLOEXEC)`
unfoldable pub set_cloexec : ℕ → Cmd (Unit {0})
set_cloexec fd p w = set_slot fd (mark (slot p.fds fd)) p w

-- A new descriptor.
unfoldable pub new_fd : File → Cmd ℕ
new_fd f p w =
    let fd = lowest p.fds in
    (
      returned fd,
      (record p { fds = put p.fds fd (some (record { file = f; cloexec = false })) }, w),
    )

unfoldable pub open_null : Cmd (Option ℕ)
open_null p w =
    if w.open_answer
    then (do fd ← new_fd null_device; pure (some fd)) p w
    else (returned none, (p, w))

unfoldable pub set_at : {A : Type 0} → (ℕ → A) → ℕ → A → ℕ → A
set_at f i a j = if j == i then a else f j

-- The two descriptors and the pipe's number.
unfoldable pub pipe : Cmd (Option (ℕ × ℕ))
pipe p w =
    if w.pipe_answer
    then (do
      reader ← new_fd (read_end w.pipes)
      writer ← new_fd (write_end w.pipes)
      pure (some (reader, writer)))
        p
        (record w {
          pipes = w.pipes + 1;
          contents = set_at w.contents w.pipes [];
          held = set_at w.held w.pipes false;
        })
    else (returned none, (p, w))

-- `write(fd, &byte, 1)`
unfoldable pub write_to : Option Slot → ℕ → World → World
write_to none byte w = w
write_to (some x) byte w = elim x.file [
  | write_end id ↦ record w { contents = set_at w.contents id (w.contents id ++ byte ∷ []) }
  | null_device ↦ w
  | read_end id ↦ w
  | other_file n ↦ w
]

unfoldable pub write : ℕ → ℕ → Cmd (Unit {0})
write fd byte p w = (returned tt, (p, write_to (slot p.fds fd) byte w))

-- `read(fd, &byte, 1)` from a pipe: it waits while there is no byte and someone may write one.
unfoldable pub read_pipe : ℕ → List ℕ → Cmd ℤ
read_pipe id (b ∷ bs) p w = (returned (pos 1), (p, record w { contents = set_at w.contents id bs }))
read_pipe id [] p w =
    if w.held id || writes_to id p.fds then (blocked, (p, w)) else (returned (pos 0), (p, w))

unfoldable pub read_from : Option Slot → Cmd ℤ
read_from none p w = (returned (negsuc 0), (p, w))
read_from (some x) p w = elim x.file [
  | read_end id ↦ read_pipe id (w.contents id) p w
  | write_end id ↦ (returned (negsuc 0), (p, w))
  | null_device ↦ (returned (pos 0), (p, w))
  | other_file n ↦ (undefined, (p, w))
]

unfoldable pub read : ℕ → Cmd ℤ
read fd p w = if w.read_fails then (returned (negsuc 0), (p, w)) else read_from (slot p.fds fd) p w
