-- ===== src/Process/Verdict.antt =====
-- spawn_bg of utils.c: the whole of it, on every path.
use udprelayd.Base.{
  ℕ, ◌+◌, ◌≡◌, refl, ◌&&◌, not, Bool, true, false, none, some, List, [], ◌==◌, ==_refl,
  if◌then◌else◌, arith, Bool-cases, inl, inr, ap, sym,
}
use udprelayd.Base.Int.{ℤ, pos, negsuc}
use udprelayd.Unix.{
  Table, slot, put, Process, World, Outcome, returned, exited, Cmd, then_run, end_other, left,
  set_at, wait_status, writes_to,
}
use udprelayd.Process.{bg_child, wait_child, spawn_piped, spawn_bg}
use udprelayd.Process.Pipes.{
  reader_of, writer_of, with_pipe, fresh_pipe, ends-order, pipe-run, pipe-none, counted, fork-run,
  fork-none,
}
use udprelayd.Process.Background.{bg_child-run, bg_child-none}
use udprelayd.Process.Result.{
  started, verdict, writer_closed, both_closed, with_pipe-Carries, writer_closed-silent,
  writer_closed-reader, both_closed-slot, wait_exec-run, wait_child-run, wait_child-failed,
}

-- What spawn_bg promises: 0 if the program has been started in the background, and else -1.
abbrev pub in_background : List (List ℕ) → World → Bool
in_background argv w =
    w.pipe_answer
    && (w.fork_answer w.forks
        && (w.fork_answer (w.forks + 1) && (not w.read_fails && started (w.exec_answer argv))))

relabel :
    (p : Process) (w' : World) {b b' : Bool} {fds fds' : Table} {m : Outcome ℤ × (Process × World)}
    → b' ≡ b
    → fds' ≡ fds
    → m ≡ (returned (verdict b), (record p { fds = fds }, w'))
    → m ≡ (returned (verdict b'), (record p { fds = fds' }, w'))
relabel p w' e e' run = rw e (rw e' run)

module _ (argv extra_env : List (List ℕ)) (p : Process) (w : World)
    (silent : writes_to w.pipes p.fds ≡ false) where
  id : ℕ
  id = w.pipes

  abbrev reader : ℕ
  reader = reader_of p.fds

  abbrev writer : ℕ
  writer = writer_of w.pipes p.fds

  abbrev piped : Process
  piped = record p { fds = with_pipe w.pipes p.fds }

  abbrev child : Cmd (Unit {0})
  child = bg_child argv extra_env reader writer

  writer_ne : ((writer == 0) ≡ false) × ((writer == reader) ≡ false)
  writer_ne = let order = ends-order w.pipes p.fds in (ground arith, ground arith)

  emptied : (fresh_pipe w).contents w.pipes ≡ []
  unfolding set_at
  emptied = rw (==_refl w.pipes) refl

  freed : (fresh_pipe w).held w.pipes ≡ false
  unfolding set_at
  freed = rw (==_refl w.pipes) refl

  -- The parent and its child, with the pipe and the first fork.
  forked-run :
      w.fork_answer w.forks ≡ true
      → (w' : World) × (spawn_piped argv extra_env (some (reader, writer)) piped (fresh_pipe w) ≡ (
        returned (
            verdict
              (w.fork_answer (w.forks + 1) && (not w.read_fails && started (w.exec_answer argv)))),
        (record p { fds = both_closed w.pipes p.fds }, w'),
      ))
  unfolding spawn_piped end_other left writes_to then_run wait_status
  forked-run e = elim (Bool-cases (w.fork_answer (w.forks + 1))) [
    | inl e' ↦
        let (q, w₁, done, contents, free, fails) =
          bg_child-run argv extra_env w.pipes reader writer piped (counted (fresh_pipe w))
            writer_ne.0 writer_ne.1 (with_pipe-Carries w.pipes p.fds silent) emptied freed e' in
        let gone : Outcome (Unit {0}) = exited 0 in
        let w₂ = (end_other piped (gone, (q, w₁))).1.1 in
        let (w', run) =
          wait_exec-run w.pipes reader (w.exec_answer argv)
            (record p { fds = writer_closed w.pipes p.fds }) w₂
            (writer_closed-reader w.pipes p.fds silent) (writer_closed-silent w.pipes p.fds silent)
            contents (rw free refl) in
        (
          w',
          rw (fork-run child piped (fresh_pipe w) e) (
              rw done (
                rw (wait_child-run reader writer piped w₂ (exited 0) refl) (
                  simp (e') (
                    relabel p w' (ap (λ f. not f && started (w.exec_answer argv)) (sym fails)) refl
                      run)))),
        )
    | inr e' ↦
        let none_left =
          bg_child-none argv extra_env w.pipes reader writer piped (counted (fresh_pipe w))
            writer_ne.0 writer_ne.1 (with_pipe-Carries w.pipes p.fds silent) emptied freed e' in
        let gone : Outcome (Unit {0}) = exited 1 in
        let q = record piped { fds = put piped.fds reader none } in
        let w₂ = (end_other piped (gone, (q, counted (counted (fresh_pipe w))))).1.1 in
        (
          w₂,
          rw (fork-run child piped (fresh_pipe w) e) (
              rw none_left (
                rw (wait_child-failed reader writer piped w₂ (exited 1) refl) (
                  relabel p w₂ {b = false} {fds = both_closed w.pipes p.fds} (rw e' refl) refl
                    refl))),
        )
  ]

  first_failed :
      w.fork_answer w.forks ≡ false
      → spawn_piped argv extra_env (some (reader, writer)) piped (fresh_pipe w)
        ≡ (returned (negsuc 0), (piped, counted (fresh_pipe w)))
  unfolding spawn_piped wait_child then_run
  first_failed e = rw (fork-none child piped (fresh_pipe w) e) refl

  abbrev left_open : Table
  left_open =
      if w.pipe_answer
      then if w.fork_answer w.forks then both_closed w.pipes p.fds else with_pipe w.pipes p.fds
      else p.fds

  spawn_bg-run :
      (w' : World) × (spawn_bg argv extra_env p w
        ≡ (returned (verdict (in_background argv w)), (record p { fds = left_open }, w')))
  unfolding spawn_bg then_run
  spawn_bg-run = elim (Bool-cases w.pipe_answer) [
    | inl e ↦ elim (Bool-cases (w.fork_answer w.forks)) [
      | inl e' ↦
          let (w', run) = forked-run e' in
          (w', rw (pipe-run p w e) (relabel p w' (rw (e, e') refl) (rw (e, e') refl) run))
      | inr e' ↦ (
        counted (fresh_pipe w),
        rw (pipe-run p w e) (
            relabel p (counted (fresh_pipe w)) {b = false} {fds = with_pipe w.pipes p.fds}
              (rw (e, e') refl) (rw (e, e') refl) (first_failed e')),
      )
    ]
    | inr e ↦ (
      w,
      rw (pipe-none p w e) (
          relabel p w {b = false} {fds = p.fds} (rw e refl) (rw e refl)
            (unfold spawn_piped in refl)),
    )
  ]

  -- Where no descriptor is the write end of a pipe yet to be made, spawn_bg returns, and does not wait
  -- for ever: it gives 0 if the pipe and both forks succeed, read is not interrupted and the program
  -- can be executed, and -1 otherwise.
  pub spawn_bg-result :
      (spawn_bg argv extra_env p w).0 ≡ returned (if in_background argv w then pos 0 else negsuc 0)
  spawn_bg-result = let (w', run) = spawn_bg-run in rw run refl

  -- Where no descriptor is the write end of a pipe yet to be made, spawn_bg leaves the table of
  -- descriptors as it was, except when it has the pipe but the first fork fails: then both ends of the
  -- pipe stay open.
  pub spawn_bg-fds :
      (n : ℕ)
      → slot (spawn_bg argv extra_env p w).1.0.fds n ≡ (
          if w.pipe_answer && not (w.fork_answer w.forks)
          then slot (with_pipe w.pipes p.fds) n
          else slot p.fds n)
  spawn_bg-fds n =
      let (w', run) = spawn_bg-run in
      rw run (elim (Bool-cases w.pipe_answer) [
        | inl e ↦ elim (Bool-cases (w.fork_answer w.forks)) [
          | inl e' ↦ rw (e, e') (both_closed-slot w.pipes p.fds n)
          | inr e' ↦ rw (e, e') refl
        ]
        | inr e ↦ rw e refl
      ])
