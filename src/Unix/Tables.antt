-- ===== src/Unix/Tables.antt =====
-- A process's table of descriptors, for the system calls that utils.c makes.
use udprelayd.Base.{
  ℕ, zero, suc, Bool, false, ◌||◌, Option, none, some, List, [], ◌∷◌, ◌==◌, if◌then◌else◌,
}

-- What a descriptor refers to. A pipe has a number.
pub data File : Type 0 where
  null_device : File
  read_end : ℕ → File
  write_end : ℕ → File
  other_file : ℕ → File

pub record Slot : Type 0 where
  pub file : File
  -- FD_CLOEXEC
  pub cloexec : Bool

-- Descriptor n is the n-th entry, and is closed behind the end.
abbrev pub Table : Type 0
Table = List (Option Slot)

unfoldable pub slot : Table → ℕ → Option Slot
slot [] n = none
slot (x ∷ fds) zero = x
slot (x ∷ fds) (suc n) = slot fds n

unfoldable pub put : Table → ℕ → Option Slot → Table
put [] zero x = x ∷ []
put [] (suc n) x = none ∷ put [] n x
put (y ∷ fds) zero x = x ∷ fds
put (y ∷ fds) (suc n) x = y ∷ put fds n x

-- The lowest descriptor that is closed.
unfoldable pub lowest : Table → ℕ
lowest [] = 0
lowest (none ∷ fds) = 0
lowest (some x ∷ fds) = suc (lowest fds)

unfoldable pub is_end : ℕ → File → Bool
is_end id (write_end n) = n == id
is_end id _ = false

-- The table has the write end of the pipe.
unfoldable pub writes_to : ℕ → Table → Bool
writes_to id [] = false
writes_to id (none ∷ fds) = writes_to id fds
writes_to id (some x ∷ fds) = is_end id x.file || writes_to id fds

unfoldable pub drop_cloexec : Table → Table
drop_cloexec [] = []
drop_cloexec (none ∷ fds) = none ∷ drop_cloexec fds
drop_cloexec (some x ∷ fds) = (if x.cloexec then none else some x) ∷ drop_cloexec fds
