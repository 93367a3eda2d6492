-- ===== src/Process/Result.antt =====
-- spawn_bg of utils.c: its result and the table of descriptors after it.
use udprelayd.Base.{
  ℕ, ◌≡◌, refl, ◌&&◌, not, Bool, true, false, Option, none, some, [], ◌==◌, ==_refl, if◌then◌else◌,
  arith, Bool-cases, inl, inr,
}
use udprelayd.Base.Int.{ℤ, pos, negsuc}
use udprelayd.Unix.{
  Table, slot, put, Process, World, Outcome, returned, then_run, set_at, read, read_from, read_pipe,
  wait_status, writes_to, is_end,
}
use udprelayd.Process.{wait_exec, wait_child}
use udprelayd.Process.Table.{slot-put, end_slot, writes_to-slot, writes_to-false}
use udprelayd.Process.Pipes.{
  reading, reader_of, writer_of, with_pipe, ends-order, reader-closed, writer-closed,
  slot-with_pipe, close-run,
}
use udprelayd.Process.Carries.{Carries}
use udprelayd.Process.Background.{told}

abbrev pub started : Option ℕ → Bool
started none = false
started (some status) = true

abbrev pub verdict : Bool → ℤ
verdict ok = if ok then pos 0 else negsuc 0

-- The tables that spawn_bg goes through.
abbrev pub writer_closed : ℕ → Table → Table
writer_closed id fds = put (with_pipe id fds) (writer_of id fds) none

abbrev pub both_closed : ℕ → Table → Table
both_closed id fds = put (writer_closed id fds) (reader_of fds) none

module _ (id : ℕ) (fds : Table) (silent : writes_to id fds ≡ false) where
  pub with_pipe-Carries : Carries id (writer_of id fds) false (with_pipe id fds)
  unfolding is_end
  with_pipe-Carries = record {
    here = rw (slot-with_pipe id fds (writer_of id fds)) (rw (==_refl (writer_of id fds)) refl);
    nowhere_else = λ n e. rw (slot-with_pipe id fds n) (rw e (other n));
  }
    where
      other :
          (n : ℕ)
          → end_slot id (if n == reader_of fds then some (reading id) else slot fds n) ≡ false
      other n = elim (Bool-cases (n == reader_of fds)) [
        | inl e ↦ rw e refl
        | inr e ↦ rw e (writes_to-slot id fds silent n)
      ]

  -- Without its own write end, the parent does not wait for itself.
  pub writer_closed-silent : writes_to id (writer_closed id fds) ≡ false
  writer_closed-silent = writes_to-false id (writer_closed id fds) (λ n.
      rw (slot-put (with_pipe id fds) (writer_of id fds) none n)
        (elim (Bool-cases (n == writer_of id fds)) [
          | inl e ↦ rw e refl
          | inr e ↦ rw e (with_pipe-Carries.nowhere_else n e)
        ]))

  pub writer_closed-reader : slot (writer_closed id fds) (reader_of fds) ≡ some (reading id)
  writer_closed-reader = ground (
    arith,
    ends-order id fds,
    slot-put (with_pipe id fds) (writer_of id fds) none (reader_of fds),
    slot-with_pipe id fds (reader_of fds),
  )

pub both_closed-slot : (id : ℕ) (fds : Table) (n : ℕ) → slot (both_closed id fds) n ≡ slot fds n
both_closed-slot id fds n = ground (
  arith,
  writer-closed id fds,
  reader-closed id fds,
  slot-put (writer_closed id fds) (reader_of fds) none n,
  slot-put (with_pipe id fds) (writer_of id fds) none n,
  slot-with_pipe id fds n,
)

-- What read returns to the parent.
abbrev heard : Bool → Option ℕ → ℤ
heard true answer = negsuc 0
heard false none = pos 1
heard false (some status) = pos 0

abbrev result_of : ℤ → ℤ
result_of rd = elim rd [ pos n ↦ if n == 0 then pos 0 else negsuc 0 | negsuc n ↦ negsuc 0 ]

heard-verdict :
    (fails : Bool) (answer : Option ℕ)
    → result_of (heard fails answer) ≡ verdict (not fails && started answer)
heard-verdict true answer = refl
heard-verdict false none = refl
heard-verdict false (some status) = refl

read_pipe-run :
    (id : ℕ) (answer : Option ℕ) (p : Process) (w : World)
    → writes_to id p.fds ≡ false
    → w.held id ≡ false
    → (w' : World) × (read_pipe id (told answer) p w ≡ (returned (heard false answer), (p, w')))
unfolding read_pipe set_at
read_pipe-run id none p w silent free = (record w { contents = set_at w.contents id [] }, refl)
read_pipe-run id (some status) p w silent free = (w, rw free (rw silent refl))

module _ (id reader : ℕ) (answer : Option ℕ) (p : Process) (w : World)
    (here : slot p.fds reader ≡ some (reading id)) (silent : writes_to id p.fds ≡ false)
    (contents : w.contents id ≡ told answer) (free : w.held id ≡ false) where
  read-run : (w' : World) × (read reader p w ≡ (returned (heard w.read_fails answer), (p, w')))
  unfolding read read_from
  read-run = elim (Bool-cases w.read_fails) [
    | inl e ↦ (w, rw e refl)
    | inr e ↦
        let (w', done) = read_pipe-run id answer p w silent free in
        (w', simp (e) (simp (here) (simp (contents) done)))
  ]

  -- The parent's last part, with its write end closed: it does not wait for ever.
  pub wait_exec-run :
      (w' : World) × (wait_exec reader p w ≡ (
        returned (verdict (not w.read_fails && started answer)),
        (record p { fds = put p.fds reader none }, w'),
      ))
  unfolding wait_exec then_run
  wait_exec-run =
      let (w', done) = read-run in
      (w', rw (← heard-verdict w.read_fails answer) (rw done (rw (close-run reader p w') refl)))

-- What the parent does once the child has exited.
module _ (reader writer : ℕ) (p : Process) (w : World) where
  abbrev closed_writer : Process
  closed_writer = record p { fds = put p.fds writer none }

  pub wait_child-run :
      (o : Outcome (Unit {0}))
      → wait_status (some o) ≡ (λ q v. (returned 0, (q, v)))
      → wait_child reader writer (some o) p w ≡ wait_exec reader closed_writer w
  unfolding wait_child then_run
  wait_child-run o e = rw (close-run writer p w) (rw e refl)

  pub wait_child-failed :
      (o : Outcome (Unit {0}))
      → wait_status (some o) ≡ (λ q v. (returned 1, (q, v)))
      → wait_child reader writer (some o) p w
        ≡ (returned (negsuc 0), (record p { fds = put closed_writer.fds reader none }, w))
  unfolding wait_child then_run
  wait_child-failed o e =
      rw (close-run writer p w) (rw e (rw (close-run reader closed_writer w) refl))
