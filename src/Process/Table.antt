-- ===== src/Process/Table.antt =====
-- utils.c: the table of a process's descriptors.
use udprelayd.Base.{
  ℕ, zero, suc, ◌<◌, ◌≡◌, refl, Bool, false, Option, none, some, [], ◌∷◌, ◌==◌, if◌then◌else◌,
  arith,
}
use udprelayd.Unix.{Slot, Table, slot, put, lowest, is_end, writes_to, drop_cloexec}

pub slot-put :
    (fds : Table) (n : ℕ) (x : Option Slot) (m : ℕ)
    → slot (put fds n x) m ≡ (if m == n then x else slot fds m)
unfolding slot put
slot-put [] zero x zero = ground arith
slot-put [] zero x (suc m) = ground arith
slot-put [] (suc n) x zero = ground arith
slot-put [] (suc n) x (suc m) = ground (arith, slot-put [] n x m)
slot-put (y ∷ fds) zero x zero = ground arith
slot-put (y ∷ fds) zero x (suc m) = ground arith
slot-put (y ∷ fds) (suc n) x zero = ground arith
slot-put (y ∷ fds) (suc n) x (suc m) = ground (arith, slot-put fds n x m)

pub slot-lowest : (fds : Table) → slot fds (lowest fds) ≡ none
unfolding slot lowest
slot-lowest [] = refl
slot-lowest (none ∷ fds) = refl
slot-lowest (some x ∷ fds) = slot-lowest fds

-- The next new descriptor is above the one that has just been taken.
pub lowest-put : (fds : Table) (x : Slot) → lowest fds < lowest (put fds (lowest fds) (some x))
unfolding lowest put
lowest-put [] x = omega arith
lowest-put (none ∷ fds) x = omega arith
lowest-put (some y ∷ fds) x = omega (arith, lowest-put fds x)

abbrev pub end_slot : ℕ → Option Slot → Bool
end_slot id none = false
end_slot id (some x) = is_end id x.file

abbrev pub kept : Option Slot → Option Slot
kept none = none
kept (some x) = if x.cloexec then none else some x

pub slot-drop_cloexec : (fds : Table) (n : ℕ) → slot (drop_cloexec fds) n ≡ kept (slot fds n)
unfolding slot drop_cloexec
slot-drop_cloexec [] n = refl
slot-drop_cloexec (none ∷ fds) zero = refl
slot-drop_cloexec (some x ∷ fds) zero = refl
slot-drop_cloexec (none ∷ fds) (suc n) = slot-drop_cloexec fds n
slot-drop_cloexec (some x ∷ fds) (suc n) = slot-drop_cloexec fds n

-- A table without the write end has it nowhere, and the other way round.
pub writes_to-slot :
    (id : ℕ) (fds : Table) → writes_to id fds ≡ false → (n : ℕ) → end_slot id (slot fds n) ≡ false
unfolding writes_to slot
writes_to-slot id [] h n = refl
writes_to-slot id (none ∷ fds) h zero = refl
writes_to-slot id (some x ∷ fds) h zero = ground arith
writes_to-slot id (none ∷ fds) h (suc n) = writes_to-slot id fds h n
writes_to-slot id (some x ∷ fds) h (suc n) = writes_to-slot id fds (ground arith) n

pub writes_to-false :
    (id : ℕ) (fds : Table) → ((n : ℕ) → end_slot id (slot fds n) ≡ false) → writes_to id fds ≡ false
unfolding writes_to slot
writes_to-false id [] h = refl
writes_to-false id (none ∷ fds) h = writes_to-false id fds (λ n. h (suc n))
writes_to-false id (some x ∷ fds) h =
    let here = h 0 in ground (arith, writes_to-false id fds (λ n. h (suc n)))
