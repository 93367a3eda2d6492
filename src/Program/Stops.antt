-- ===== src/Program/Stops.antt =====
-- main: its end, by a failure at the start or by a signal in the main loop.
use udprelayd.Base.{
  ℕ, suc, ◌+◌, ◌≡◌, refl, ◌∙◌, ap, Bool, true, Option, none, some, List, [], ◌∷◌, ◌++◌, arith,
  length, inl, inr, Bool-cases,
}
use udprelayd.Base.Int.{pos}
use udprelayd.Config.{Config}
use udprelayd.Config.Total
use udprelayd.Lookup.Tree.{RbTree}
use udprelayd.Os.{Kernel, is_eagain}
use udprelayd.Daemon.{Udprelay, Run, pure, ◌>>=◌}
use udprelayd.Daemon.Loop.{
  Selected, ready, select_failed, Step, continue, terminate, round, main_loop, udprelay_cleanup,
}
use udprelayd.Daemon.Benign.{Benign}
use udprelayd.Daemon.Rounds.{AllQuiet, Continues}
use udprelayd.Net.{Sys}
use udprelayd.Setup.{udprelay_init}
use udprelayd.Setup.Counts.{opened_count, closed_count, occurrences, occurrences-nil}
use udprelayd.Setup.Init.{daemon_fds, udprelay_init-fds}
use udprelayd.Setup.Results.{Sized}
use udprelayd.Descriptors.{closes}
use udprelayd.Descriptors.Rounds.{state_fds}
use udprelayd.Descriptors.Loop.{main_loop-fds, udprelay_cleanup-closes}
use udprelayd.Program.{program-Serves}
use udprelayd.Program.Start.{Exit, exit_success, running, ending, with_daemon}

abbrev pub Finished : Exit → Type 0
Finished running = ⊥
Finished _ = Unit

module _ (t : RbTree) where
  -- What `k` had closed and the daemon held has been closed at an exit.
  abbrev pub Released : Kernel → List ℕ → Option (Exit × Kernel) → Type 0
  Released k p none = Unit
  Released k p (some (exit, k')) =
      Finished exit → (fd : ℕ) → closes fd k'.log ≡ closes fd k.log + occurrences fd p

  pub ending-Released :
      (inputs : List (Selected × Bool)) (u : Udprelay t.T) (k : Kernel)
      (res : Option (Step t.T × Kernel))
      → main_loop t inputs u k ≡ res
      → Released k (state_fds u) (ending t res)
  unfolding ending
  ending-Released inputs u k none e = tt
  ending-Released inputs u k (some (continue u', k')) e = λ never. absurd never
  ending-Released inputs u k (some (terminate u', k')) e = λ f fd.
      omega
        (arith, main_loop-fds t inputs u k (terminate u') k' e fd, udprelay_cleanup-closes u' k' fd)

  pub with_daemon-Released :
      (inputs : List (Selected × Bool)) (s : Sys) (k : Kernel) (u : Option (Udprelay t.T))
      → Released k (daemon_fds t u) (with_daemon t inputs s k u)
  unfolding with_daemon
  with_daemon-Released inputs s k none = λ f fd. omega (arith, occurrences-nil fd)
  with_daemon-Released inputs s k (some u) =
      ending-Released inputs u k (main_loop t inputs u k) refl

  -- From logs that are empty, and whatever the configuration, the resolver, the kernel, `select` and
  -- the signals do, when main exits, with success or with a failure of udprelay_init, every descriptor
  -- has been closed, by udprelay_init, the main loop or the cleanup, as often as it has been opened.
  pub exit-closes :
      (config : Option Config) (inputs : List (Selected × Bool)) (s : Sys) (k : Kernel)
      (exit : Exit) (k' : Kernel)
      → s.log ≡ []
      → k.log ≡ []
      → with_daemon t inputs s k (udprelay_init t config s).0 ≡ some (exit, k')
      → Finished exit
      → (fd : ℕ)
      → let log = (udprelay_init t config s).1.log in
        opened_count fd log ≡ closed_count fd log + closes fd k'.log
  unfolding opened_count closed_count closes
  exit-closes config inputs s k exit k' fresh clean e f fd =
      let u = (udprelay_init t config s).0 in
      let released = (rw e at (with_daemon-Released inputs s k u)) f fd in
      let opened_before : opened_count fd s.log ≡ 0 = ap (opened_count fd) fresh in
      let closed_before : closed_count fd s.log ≡ 0 = ap (closed_count fd) fresh in
      let none_closed : closes fd k.log ≡ 0 = ap (closes fd) clean in
      omega (arith, released, udprelay_init-fds t config s fd)

  abbrev follow : List (Selected × Bool) → Step t.T → Run (Step t.T)
  follow inputs step = elim step [
    | continue u' ↦ main_loop t inputs u'
    | terminate u' ↦ pure (terminate u')
  ]

  -- The loop over two runs of inputs, one after the other.
  main_loop-append :
      (xs ys : List (Selected × Bool)) (u : Udprelay t.T) (k : Kernel)
      → main_loop t (xs ++ ys) u k ≡ (main_loop t xs u >>= follow ys) k
  unfolding main_loop
  main_loop-append [] ys u k = refl
  main_loop-append ((selected, sigterm) ∷ xs) ys u k =
      later (round t u selected sigterm k) (λ u' k'. main_loop-append xs ys u' k')
    where
      later :
          (res : Option (Step t.T × Kernel))
          → ((u' : Udprelay t.T) (k' : Kernel)
              → main_loop t (xs ++ ys) u' k' ≡ (main_loop t xs u' >>= follow ys) k')
          → ((λ v. res) >>= follow (xs ++ ys)) k
            ≡ ((λ v. ((λ v'. res) >>= follow xs) k) >>= follow ys) k
      later none h = refl
      later (some (continue u', k')) h = h u' k'
      later (some (terminate u', k')) h = refl

  -- A signal ends the round, whatever `select` returns.
  round-sigterm :
      (u : Udprelay t.T) (selected : Selected) (k : Kernel)
      → round t u selected true k ≡ some (terminate u, k)
  unfolding round
  round-sigterm u (select_failed e) k = elim (Bool-cases (is_eagain e)) [
    | inl again ↦ rw again refl
    | inr other ↦ rw other refl
  ]
  round-sigterm u (ready n rfds wfds) k = refl

  main_loop-sigterm :
      (selected : Selected) (rest : List (Selected × Bool)) (u : Udprelay t.T) (k : Kernel)
      → main_loop t ((selected, true) ∷ rest) u k ≡ some (terminate u, k)
  unfolding main_loop
  main_loop-sigterm selected rest u k = rw (round-sigterm u selected k, ◌>>=◌) refl

  -- A run of rounds that goes on, and then a signal.
  signalled :
      (xs rest : List (Selected × Bool)) (selected : Selected) (u u' : Udprelay t.T) (k k' : Kernel)
      → main_loop t xs u k ≡ some (continue u', k')
      → main_loop t (xs ++ (selected, true) ∷ rest) u k ≡ some (terminate u', k')
  signalled xs rest selected u u' k k' e =
      main_loop-append xs ((selected, true) ∷ rest) u k
      ∙ rw (e, ◌>>=◌) (main_loop-sigterm selected rest u' k')

module _ (t : RbTree) (m : ℕ) where
  -- Started from a configuration that parse_config may return, with a positive `track`, and with a
  -- resolver that answers no empty address, on a kernel that never fails hard and never hands out an
  -- empty datagram, a signal after any run of rounds in which `select` fails with nothing but EAGAIN
  -- ends the program: main exits with success, and, from logs that are empty, every descriptor has
  -- been closed as often as it has been opened.
  pub program-stops :
      (config : Config) (s : Sys) (u : Udprelay t.T) (inputs rest : List (Selected × Bool))
      (selected : Selected) (k : Kernel)
      → Total.IsValid config
      → config.track ≡ pos (suc m)
      → Sized s
      → (udprelay_init t (some config) s).0 ≡ some u
      → AllQuiet inputs
      → Benign k
      → s.log ≡ []
      → k.log ≡ []
      → (k' : Kernel) × (with_daemon t
            (inputs ++ (selected, true) ∷ rest)
            s
            k
            (udprelay_init t (some config) s).0
          ≡ some (exit_success, k'))
        × ((fd : ℕ)
            → let log = (udprelay_init t (some config) s).1.log in
              opened_count fd log ≡ closed_count fd log + closes fd k'.log)
  unfolding with_daemon ending
  program-stops config s u inputs rest selected k valid track sized started quiet benign fresh
        clean =
      let (step, k', e, c, b) =
        program-Serves t m config s u inputs k valid track sized started quiet benign in
      stop step k' e c
    where
      stop :
          (step : Step t.T) (k' : Kernel)
          → main_loop t inputs u k ≡ some (step, k')
          → Continues t (suc m) (length config.relay_config) step
          → (k' : Kernel) × (with_daemon t
                (inputs ++ (selected, true) ∷ rest)
                s
                k
                (udprelay_init t (some config) s).0
              ≡ some (exit_success, k'))
            × ((fd : ℕ)
                → let log = (udprelay_init t (some config) s).1.log in
                  opened_count fd log ≡ closed_count fd log + closes fd k'.log)
      stop (terminate u') k' e c = absurd c
      stop (continue u') k' e c =
          let all = inputs ++ (selected, true) ∷ rest in
          let k₂ = (udprelay_cleanup u' k').1 in
          let ends : with_daemon t all s k (udprelay_init t (some config) s).0
              ≡ some (exit_success, k₂) =
            rw started (rw (signalled t inputs rest selected u u' k k' e) refl) in
          (k₂, ends, exit-closes t (some config) all s k exit_success k₂ fresh clean ends tt)
