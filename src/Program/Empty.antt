-- ===== src/Program/Empty.antt =====
-- One empty datagram for the outward socket, and the whole program.
use udprelayd.Base.{ℕ, suc, ◌+◌, ◌≡◌, refl, Bool, true, false, some, List, [], ◌∷◌, arith, ◌==◌}
use udprelayd.Base.Int.{negsuc}
use udprelayd.Lookup.Tree.{RbTree}
use udprelayd.Os.{Kernel, datagram}
use udprelayd.Relay.{FdSet, relay_handle}
use udprelayd.Relay.Datagrams.{relay_handle-empty}
use udprelayd.Daemon.{Udprelay, ◌>>=◌}
use udprelayd.Daemon.Loop.{Selected, ready, terminate, round, serve, main_loop, udprelay_cleanup}
use udprelayd.Net.{Sys}
use udprelayd.Setup.Counts.{occurrences}
use udprelayd.Descriptors.{closes}
use udprelayd.Descriptors.Rounds.{state_fds}
use udprelayd.Program.Start.{exit_success, ending, with_daemon}
use udprelayd.Program.Stops.{with_daemon-Released}

module _ (t : RbTree) where
  serve-empty :
      (u : Udprelay t.T) (rfds wfds : FdSet) (k : Kernel)
      → (relay_handle u.outward rfds wfds k).0.0 ≡ negsuc 0
      → serve t u rfds wfds k ≡ (
          let ((ret, outward), k') = relay_handle u.outward rfds wfds k in
          some (terminate (record u { outward = outward }), k'))
  unfolding serve
  serve-empty u rfds wfds k fails = rw (fails, ◌>>=◌) refl

  main_loop-empty :
      (n : ℕ) (u : Udprelay t.T) (rfds wfds : FdSet) (rest : List (Selected × Bool)) (k : Kernel)
      → (relay_handle u.outward rfds wfds k).0.0 ≡ negsuc 0
      → main_loop t ((ready (suc n) rfds wfds, false) ∷ rest) u k ≡ (
          let ((ret, outward), k') = relay_handle u.outward rfds wfds k in
          some (terminate (record u { outward = outward }), k'))
  unfolding main_loop round
  main_loop-empty n u rfds wfds rest k fails =
      rw (some_ready n) (rw (serve-empty u rfds wfds k fails, ◌>>=◌) refl)
    where
      some_ready : (n : ℕ) → (suc n == 0) ≡ false
      some_ready n = ground arith

  -- When the outward socket is ready to be read, its relay holds nothing, and the datagram that
  -- arrives there is empty, which UDP allows, the daemon does not go on, whatever was to come: main
  -- exits with success, and every descriptor that the daemon held has been closed.
  pub empty-ends :
      (n : ℕ) (u : Udprelay t.T) (rfds wfds : FdSet) (rest : List (Selected × Bool)) (s : Sys)
      (k : Kernel) (source : List ℕ)
      → rfds u.outward.fd ≡ true
      → u.outward.recv_size ≡ 0
      → k.recv_answer k.recvs ≡ datagram [] source
      → (k' : Kernel) × (with_daemon t ((ready (suc n) rfds wfds, false) ∷ rest) s k (some u)
          ≡ some (exit_success, k'))
        × ((fd : ℕ) → closes fd k'.log ≡ closes fd k.log + occurrences fd (state_fds u))
  unfolding with_daemon ending
  empty-ends n u rfds wfds rest s k source ready_to_read idle arrival =
      let inputs : List (Selected × Bool) = (ready (suc n) rfds wfds, false) ∷ rest in
      let fails = relay_handle-empty u.outward rfds wfds k source ready_to_read idle arrival in
      let ((ret, outward), k₁) = relay_handle u.outward rfds wfds k in
      let k' = (udprelay_cleanup (record u { outward = outward }) k₁).1 in
      let run =
        ends inputs s k u (record u { outward = outward }) k₁
          (main_loop-empty n u rfds wfds rest k fails) in
      (k', run, (rw run at (with_daemon-Released t inputs s k (some u))) tt)
    where
      ends :
          (inputs : List (Selected × Bool)) (s : Sys) (k : Kernel) (u u' : Udprelay t.T)
          (k₁ : Kernel)
          → main_loop t inputs u k ≡ some (terminate u', k₁)
          → with_daemon t inputs s k (some u) ≡ some (exit_success, (udprelay_cleanup u' k₁).1)
      ends inputs s k u u' k₁ e = rw e refl
