-- ===== src/Process/Background.antt =====
-- spawn_bg of utils.c: what its child leaves in the notification pipe.
use udprelayd.Base.{
  ℕ, ◌≡◌, refl, ◌||◌, Bool, true, false, Option, none, some, Option-cases, List, [], ◌∷◌, ◌==◌,
  ==_iff, ==_refl, arith, Bool-cases, inl, inr,
}
use udprelayd.Unix.{
  Slot, Table, slot, put, Process, World, Outcome, exited, then_run, end_other, left, write,
  write_to, set_at, execvp, exec_result, drop_cloexec, writes_to,
}
use udprelayd.Process.{grandson, after_second, bg_child}
use udprelayd.Process.Table.{end_slot, kept, slot-drop_cloexec, writes_to-false}
use udprelayd.Process.Pipes.{close-run, counted, fork-run, fork-none}
use udprelayd.Process.Carries.{Carries, Carries-put, prepare-Marks}

-- What the parent is told: a byte, unless the program has started.
abbrev pub told : Option ℕ → List ℕ
told none = 0 ∷ []
told (some status) = []

-- A program does not get the write end that is marked.
drop_cloexec-silent :
    (id writer : ℕ) (fds : Table)
    → Carries id writer true fds
    → writes_to id (drop_cloexec fds) ≡ false
drop_cloexec-silent id writer fds c =
    writes_to-false id (drop_cloexec fds) (λ n. rw (slot-drop_cloexec fds n) (at_slot n))
  where
    kept-silent : (x : Option Slot) → end_slot id x ≡ false → end_slot id (kept x) ≡ false
    kept-silent none e = refl
    kept-silent (some x) e = ground arith

    at_slot : (n : ℕ) → end_slot id (kept (slot fds n)) ≡ false
    at_slot n = elim (Bool-cases (n == writer)) [
      | inl e ↦ rw ((==_iff n writer).0 e) (rw c.here refl)
      | inr e ↦ kept-silent (slot fds n) (c.nowhere_else n e)
    ]

-- The pipe after the grandson.
record Tells (id : ℕ) (answer : Option ℕ) (w : World) (r : Outcome (Unit {0}) × (Process × World))
    : Type 0 where
  contents : r.1.1.contents id ≡ told answer
  held : (r.1.1.held id || writes_to id (left r.0 r.1.0.fds)) ≡ false
  read_fails : r.1.1.read_fails ≡ w.read_fails

module _ (argv extra_env : List (List ℕ)) (id writer : ℕ) (p : Process) (w : World)
    (ne : (writer == 0) ≡ false) (c : Carries id writer false p.fds) (empty : w.contents id ≡ [])
    (free : w.held id ≡ false) where
  grandson-Tells : Tells id (w.exec_answer argv) w (grandson argv extra_env writer p w)
  unfolding grandson execvp exec_result write write_to set_at left writes_to then_run
  grandson-Tells =
      let (q, done, marked) = prepare-Marks id writer extra_env p w ne c in
      rw done (elim (Option-cases (w.exec_answer argv)) [
        | inl e ↦ rw e (
            rw marked.here (record {
              contents = rw (==_refl id) (rw empty refl);
              held = rw free refl;
              read_fails = refl;
            }))
        | inr (status, e) ↦ rw e (record {
          contents = empty;
          held = rw free (drop_cloexec-silent id writer q.fds marked);
          read_fails = refl;
        })
      ])

-- What the child tells the parent by its exit status.
abbrev pub forked_status : Bool → ℕ
forked_status true = 0
forked_status false = 1

module _ (argv extra_env : List (List ℕ)) (id reader writer : ℕ) (p : Process) (w : World)
    (ne : (writer == 0) ≡ false) (differ : (writer == reader) ≡ false)
    (c : Carries id writer false p.fds) (empty : w.contents id ≡ [])
    (free : w.held id ≡ false) where
  abbrev reading_closed : Process
  reading_closed = record p { fds = put p.fds reader none }

  closed-Carries : Carries id writer false reading_closed.fds
  closed-Carries = Carries-put id writer false p.fds reader none differ refl c

  -- The child exits, and if its own fork succeeds, the grandson has told how it went.
  pub bg_child-run :
      w.fork_answer w.forks ≡ true
      → (p' : Process) × (w' : World) × (bg_child argv extra_env reader writer p w
          ≡ (exited 0, (p', w')))
        × (w'.contents id ≡ told (w.exec_answer argv))
        × (w'.held id ≡ false)
        × (w'.read_fails ≡ w.read_fails)
  unfolding bg_child after_second end_other then_run
  bg_child-run e =
      let q = reading_closed in
      let other = grandson argv extra_env writer in
      let tells =
        grandson-Tells argv extra_env id writer q (counted w) ne closed-Carries empty free in
      (
        q,
        (end_other q (other q (counted w))).1.1,
        rw (close-run reader p w) (rw (fork-run other q w e) refl),
        tells.contents,
        tells.held,
        tells.read_fails,
      )

  pub bg_child-none :
      w.fork_answer w.forks ≡ false
      → bg_child argv extra_env reader writer p w ≡ (exited 1, (reading_closed, counted w))
  unfolding bg_child after_second then_run
  bg_child-none e =
      rw (close-run reader p w)
        (rw (fork-none (grandson argv extra_env writer) reading_closed w e) refl)
