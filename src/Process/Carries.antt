-- ===== src/Process/Carries.antt =====
-- spawn_bg of utils.c: the grandson keeps the write end of the notification pipe, and marks it to be
-- closed in a program.
use udprelayd.Base.{
  ℕ, ◌≡◌, refl, ◌∙◌, Bool, true, false, Option, none, some, List, [], ◌∷◌, ◌==◌, if◌then◌else◌,
  arith, Bool-cases, inl, inr,
}
use udprelayd.Unix.{
  write_end, Slot, Table, slot, put, lowest, Process, World, returned, Cmd, ◌>>◌, then_run,
  set_cloexec, mark, is_end,
}
use udprelayd.Process.{chdir_root, putenvs, stdin_null, prepare}
use udprelayd.Process.Table.{slot-put, slot-lowest, end_slot}
use udprelayd.Process.Pipes.{
  null_slot, with_null, dup_to, open_null-run, open_null-none, dup2-run, close-run, set_cloexec-run,
}

-- The descriptor is the table's only write end of the pipe.
pub record Carries (id writer : ℕ) (f : Bool) (fds : Table) : Type 0 where
  pub here : slot fds writer ≡ some (record { file = write_end id; cloexec = f })
  pub nowhere_else : (n : ℕ) → (n == writer) ≡ false → end_slot id (slot fds n) ≡ false

pub Carries-put :
    (id writer : ℕ) (f : Bool) (fds : Table) (n : ℕ) (x : Option Slot)
    → (writer == n) ≡ false
    → end_slot id x ≡ false
    → Carries id writer f fds
    → Carries id writer f (put fds n x)
Carries-put id writer f fds n x ne silent c = record {
  here = slot-put fds n x writer ∙ rw ne c.here;
  nowhere_else = λ m o. rw (slot-put fds n x m) (placed m (c.nowhere_else m o));
}
  where
    placed :
        (m : ℕ)
        → end_slot id (slot fds m) ≡ false
        → end_slot id (if m == n then x else slot fds m) ≡ false
    placed m o = elim (Bool-cases (m == n)) [ inl e ↦ rw e silent | inr e ↦ rw e o ]

-- A closed descriptor is not the one that carries.
Carries-ne :
    (id writer : ℕ) (f : Bool) (fds : Table) (n : ℕ)
    → slot fds n ≡ none
    → Carries id writer f fds
    → (writer == n) ≡ false
Carries-ne id writer f fds n e c = let here = c.here in ground arith

Carries-dup_to :
    (id writer : ℕ) (f : Bool) (fds : Table) (new fd : ℕ)
    → (writer == new) ≡ false
    → slot fds fd ≡ some null_slot
    → Carries id writer f fds
    → Carries id writer f (dup_to new fd fds)
unfolding is_end
Carries-dup_to id writer f fds new fd ne e c = elim (Bool-cases (fd == new)) [
  | inl same ↦ rw same c
  | inr differ ↦ rw differ (rw e (Carries-put id writer f fds new (some null_slot) ne refl c))
]

Carries-mark :
    (id writer : ℕ) (f : Bool) (fds : Table)
    → Carries id writer f fds
    → Carries id writer true (put fds writer (mark (slot fds writer)))
Carries-mark id writer f fds c = rw c.here (record {
  here = slot-put fds writer marked writer ∙ ground arith;
  nowhere_else = λ m o. rw (slot-put fds writer marked m) (rw o (c.nowhere_else m o));
})
  where
    marked : Option Slot
    marked = some (record { file = write_end id; cloexec = true })

putenvs-run :
    (es : List (List ℕ)) (p : Process) (w : World)
    → (p' : Process) × (putenvs es p w ≡ (returned tt, (p', w))) × (p'.fds ≡ p.fds)
unfolding putenvs
putenvs-run [] p w = (p, refl, refl)
putenvs-run (e ∷ es) p w = putenvs-run es (record p { env = e ∷ p.env }) w

-- The command returns, changes nothing that is shared, and leaves the write end marked and alone.
abbrev pub Marks : ℕ → ℕ → Cmd (Unit {0}) → Process → World → Type 0
Marks id writer m p w =
    (p' : Process) × (m p w ≡ (returned tt, (p', w))) × Carries id writer true p'.fds

module _ (id writer : ℕ) (extra_env : List (List ℕ)) where
  set_cloexec-Marks :
      (p : Process) (w : World)
      → Carries id writer false p.fds
      → Marks id writer (set_cloexec writer >> putenvs extra_env) p w
  unfolding then_run
  set_cloexec-Marks p w c =
      let q = record p { fds = put p.fds writer (mark (slot p.fds writer)) } in
      let (p', done, same) = putenvs-run extra_env q w in
      (p', rw (set_cloexec-run writer p w) done, rw same (Carries-mark id writer false p.fds c))

  with_null-Marks :
      (p : Process) (w : World)
      → (writer == 0) ≡ false
      → Carries id writer false p.fds
      → Marks id writer
          (stdin_null (some (lowest p.fds)) >> (set_cloexec writer >> putenvs extra_env))
          (record p { fds = with_null p.fds })
          w
  unfolding stdin_null is_end then_run
  with_null-Marks p w ne c =
      let fd = lowest p.fds in
      let away = Carries-ne id writer false p.fds fd (slot-lowest p.fds) c in
      let opened = record p { fds = with_null p.fds } in
      let duped = record p { fds = dup_to 0 fd opened.fds } in
      let here : slot opened.fds fd ≡ some null_slot =
        ground (arith, slot-put p.fds fd (some null_slot) fd) in
      rw (dup2-run fd opened w 0) (
        rw (close-run fd duped w) (
          set_cloexec-Marks (record p { fds = put duped.fds fd none }) w
            (Carries-put id writer false duped.fds fd none away refl (
              Carries-dup_to id writer false opened.fds 0 fd ne here
                (Carries-put id writer false p.fds fd (some null_slot) away refl c)))))

  pub prepare-Marks :
      (p : Process) (w : World)
      → (writer == 0) ≡ false
      → Carries id writer false p.fds
      → Marks id writer (prepare writer extra_env) p w
  unfolding prepare chdir_root stdin_null then_run
  prepare-Marks p w ne c = elim (Bool-cases w.open_answer) [
    | inl e ↦
        rw (open_null-run (record p { at_root = true }) w e)
          (with_null-Marks (record p { at_root = true }) w ne c)
    | inr e ↦
        rw (open_null-none (record p { at_root = true }) w e)
          (set_cloexec-Marks (record p { at_root = true }) w c)
  ]
