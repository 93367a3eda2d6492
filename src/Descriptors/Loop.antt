-- ===== src/Descriptors/Loop.antt =====
-- udprelayd.c: the descriptors over the whole main loop, and udprelay_cleanup.
use udprelayd.Base.{ℕ, ◌+◌, ◌≡◌, refl, Bool, not, ◌||◌, some, List, [], ◌∷◌, ◌++◌, ◌==◌, arith}
use udprelayd.Lookup.Tree.{RbTree}
use udprelayd.Os.{Kernel, is_eagain}
use udprelayd.Relay.{Relay, FdSet, is_neg, relay_handle, free_relay}
use udprelayd.Daemon.{Run, pure, call, Udprelay, handle_relays}
use udprelayd.Daemon.Loop.{
  Selected, ready, select_failed, Step, continue, terminate, inbound, relayed, dispatch, serve,
  round, main_loop, close_relays, udprelay_cleanup,
}
use udprelayd.Setup.Counts.{occurrences, occurrences-nil, occurrences-append}
use udprelayd.Setup.Init.{fds}
use udprelayd.Descriptors.{closes}
use udprelayd.Descriptors.Holds.{
  Holds, RunHolds, RunHolds-pure, RunHolds-call, RunHolds-bind, RunHolds-if, RunHolds-frame,
  RunHolds-beside,
}
use udprelayd.Descriptors.Relays.{result_fds, relay_handle-Holds, free_relay-Holds}
use udprelayd.Descriptors.Rounds.{
  state_fds, passed_fds, inbound-Holds, all_fds, handle_relays-Holds, many_fds, relayed-Holds,
}

close_relays-Holds : (rs : List Relay) (p : List ℕ) → Holds (fds rs ++ p) (close_relays rs) (λ u. p)
unfolding Holds close_relays
close_relays-Holds [] p k = λ fd. refl
close_relays-Holds (r ∷ rs) p k = λ fd.
    omega
      (arith, free_relay-Holds r (fds rs ++ p) k fd, close_relays-Holds rs p (free_relay r k).1 fd)

-- udprelay_cleanup closes every descriptor of the daemon.
pub udprelay_cleanup-Holds :
    {T : Type 0} (u : Udprelay T) → Holds (state_fds u) (udprelay_cleanup u) (λ x. [])
unfolding Holds udprelay_cleanup occurrences
udprelay_cleanup-Holds u k = λ fd. omega (
  arith,
  close_relays-Holds u.relays (u.outward.fd ∷ []) k fd,
  free_relay-Holds u.outward [] (close_relays u.relays k).1 fd,
  occurrences-append fd (fds u.relays) (u.outward.fd ∷ []),
)

pub udprelay_cleanup-closes :
    {T : Type 0} (u : Udprelay T) (k : Kernel) (fd : ℕ)
    → closes fd (udprelay_cleanup u k).1.log ≡ closes fd k.log + occurrences fd (state_fds u)
unfolding Holds
udprelay_cleanup-closes u k fd = omega (arith, udprelay_cleanup-Holds u k fd, occurrences-nil fd)

module _ (t : RbTree) where
  abbrev pub step_fds : Step t.T → List ℕ
  step_fds (continue u) = state_fds u
  step_fds (terminate u) = state_fds u

  dispatch-Holds : (u : Udprelay t.T) → RunHolds (state_fds u) (dispatch t u) step_fds
  unfolding dispatch
  dispatch-Holds u =
      RunHolds-bind (state_fds u) (inbound u) passed_fds _ step_fds (inbound-Holds u) (λ x.
        RunHolds-if (is_neg x.0) (passed_fds x) _ _ step_fds
          (RunHolds-pure (terminate x.1) step_fds)
          (RunHolds-bind (passed_fds x) (relayed t x.1 x.1.relays) (many_fds t) _ step_fds
            (relayed-Holds t x.1 x.1.relays)
            (λ y. RunHolds-pure (continue (record y.1 { relays = y.0 })) step_fds)))

  serve-Holds :
      (u : Udprelay t.T) (rfds wfds : FdSet) → RunHolds (state_fds u) (serve t u rfds wfds) step_fds
  unfolding serve
  serve-Holds u rfds wfds =
      RunHolds-bind (state_fds u) (call (relay_handle u.outward rfds wfds))
        (λ res. result_fds res ++ fds u.relays) _ step_fds
        (RunHolds-beside (fds u.relays) (u.outward.fd ∷ []) _ result_fds
          (RunHolds-call (u.outward.fd ∷ []) _ result_fds (relay_handle-Holds u.outward rfds wfds)))
        (λ res.
          RunHolds-if (is_neg res.0) (result_fds res ++ fds u.relays) _ _ step_fds
            (RunHolds-pure (terminate (record u { outward = res.1 })) step_fds)
            (RunHolds-bind (res.1.fd ∷ fds u.relays)
              (call (handle_relays u.relays u.relays_num rfds wfds)) (λ x. res.1.fd ∷ all_fds x) _
              step_fds
              (RunHolds-frame (res.1.fd ∷ []) (fds u.relays) _ all_fds (
                RunHolds-call (fds u.relays) _ all_fds
                  (handle_relays-Holds u.relays u.relays_num rfds wfds)))
              (λ x. dispatch-Holds (record u { outward = res.1; relays = x.0; relays_num = x.1 }))))

  round-Holds :
      (u : Udprelay t.T) (selected : Selected) (sigterm : Bool)
      → RunHolds (state_fds u) (round t u selected sigterm) step_fds
  unfolding round
  round-Holds u (select_failed e) sigterm =
      RunHolds-if (not (is_eagain e) || sigterm) (state_fds u) _ _ step_fds
        (RunHolds-pure (terminate u) step_fds) (RunHolds-pure (continue u) step_fds)
  round-Holds u (ready n rfds wfds) sigterm =
      RunHolds-if sigterm (state_fds u) _ _ step_fds (RunHolds-pure (terminate u) step_fds) (
        RunHolds-if (n == 0) (state_fds u) _ _ step_fds (RunHolds-pure (continue u) step_fds)
          (serve-Holds u rfds wfds))

  abbrev follow : List (Selected × Bool) → Step t.T → Run (Step t.T)
  follow inputs step = elim step [
    | continue u' ↦ main_loop t inputs u'
    | terminate u' ↦ pure (terminate u')
  ]

  follow-Holds :
      (inputs : List (Selected × Bool)) (step : Step t.T)
      → ((u : Udprelay t.T) → RunHolds (state_fds u) (main_loop t inputs u) step_fds)
      → RunHolds (step_fds step) (follow inputs step) step_fds
  follow-Holds inputs (continue u) h = h u
  follow-Holds inputs (terminate u) h = RunHolds-pure (terminate u) step_fds

  main_loop-Holds :
      (inputs : List (Selected × Bool)) (u : Udprelay t.T)
      → RunHolds (state_fds u) (main_loop t inputs u) step_fds
  unfolding main_loop
  main_loop-Holds [] u = RunHolds-pure (continue u) step_fds
  main_loop-Holds ((selected, sigterm) ∷ inputs) u =
      RunHolds-bind (state_fds u) (round t u selected sigterm) step_fds (follow inputs) step_fds
        (round-Holds u selected sigterm) (λ step. follow-Holds inputs step (main_loop-Holds inputs))

  -- On every kernel, and whatever `select` and the signals do, the main loop neither closes a
  -- descriptor that it goes on to use nor loses one: over any run of rounds that does not fault, as
  -- often as each descriptor has been closed, so much less often does the daemon hold it.
  pub main_loop-fds :
      (inputs : List (Selected × Bool)) (u : Udprelay t.T) (k : Kernel) (step : Step t.T)
      (k' : Kernel)
      → main_loop t inputs u k ≡ some (step, k')
      → (fd : ℕ)
      → closes fd k'.log + occurrences fd (step_fds step)
        ≡ closes fd k.log + occurrences fd (state_fds u)
  unfolding RunHolds
  main_loop-fds inputs u k step k' e = rw e at (main_loop-Holds inputs u k)
