-- ===== src/Daemon/Select.antt =====
-- udprelayd.c: what a round waits for, the arguments of `select`.
use udprelayd.Base.{
  ℕ, ◌+◌, ◌≤◌, ◌<◌, ◌≡◌, refl, Bool, false, not, ◌&&◌, ◌||◌, List, [], ◌∷◌, ◌==◌, ltb, arith,
}
use udprelayd.Utils.{max}
use udprelayd.Relay.{Relay, FdSet, is_empty, relay_queued, relay_fd_set}
use udprelayd.Relay.Fifo.{pending}
use udprelayd.Daemon.{Udprelay, wait_sets, fd_sets, max_fd, nfds}

-- The descriptor of a relay whose receive buffer is free.
abbrev pub reads : ℕ → List Relay → Bool
reads n [] = false
reads n (r ∷ rs) = ((n == r.fd) && (r.recv_size == 0)) || reads n rs

-- The descriptor of a relay that has something to send.
abbrev pub writes : ℕ → List Relay → Bool
writes n [] = false
writes n (r ∷ rs) = ((n == r.fd) && not (is_empty (pending r))) || writes n rs

relay_queued-pending : (r : Relay) → relay_queued r ≡ not (is_empty (pending r))
unfolding relay_queued pending
relay_queued-pending r = ground arith

module _ (r : Relay) (rfds wfds : FdSet) (n : ℕ) where
  relay_fd_set-reads :
      (relay_fd_set r rfds wfds).0 n ≡ (((n == r.fd) && (r.recv_size == 0)) || rfds n)
  unfolding relay_fd_set
  relay_fd_set-reads = ground arith

  relay_fd_set-writes :
      (relay_fd_set r rfds wfds).1 n ≡ (((n == r.fd) && not (is_empty (pending r))) || wfds n)
  unfolding relay_fd_set
  relay_fd_set-writes = ground (arith, relay_queued-pending r)

wait_sets-member :
    (rs : List Relay) (rfds wfds : FdSet) (n : ℕ)
    → ((wait_sets rs (rfds, wfds)).0 n ≡ (reads n rs || rfds n))
      × ((wait_sets rs (rfds, wfds)).1 n ≡ (writes n rs || wfds n))
unfolding wait_sets
wait_sets-member [] rfds wfds n = (refl, refl)
wait_sets-member (r ∷ rs) rfds wfds n =
    let (rfds', wfds') = relay_fd_set r rfds wfds in
    let (read, written) = wait_sets-member rs rfds' wfds' n in
    (
      ground (arith, read, relay_fd_set-reads r rfds wfds n),
      ground (arith, written, relay_fd_set-writes r rfds wfds n),
    )

-- Every relay's descriptor is below the bound.
abbrev AllBelow : ℕ → List Relay → Type 0
AllBelow b [] = Unit
AllBelow b (r ∷ rs) = (r.fd < b) × AllBelow b rs

max-le : (a b : ℕ) → (a ≤ max a b) × (b ≤ max a b)
unfolding max
max-le a b = (ground arith, ground arith)

max_fd-le : (rs : List Relay) (m : ℕ) → m ≤ max_fd rs m
unfolding max_fd
max_fd-le [] m = omega arith
max_fd-le (r ∷ rs) m = omega (arith, (max-le m r.fd).0, max_fd-le rs (max m r.fd))

max_fd-AllBelow : (rs : List Relay) (m b : ℕ) → max_fd rs m < b → AllBelow b rs
unfolding max_fd
max_fd-AllBelow [] m b h = tt
max_fd-AllBelow (r ∷ rs) m b h = (
  omega (arith, (max-le m r.fd).1, max_fd-le rs (max m r.fd)),
  max_fd-AllBelow rs (max m r.fd) b h,
)

below :
    (n b : ℕ) (rs : List Relay)
    → AllBelow b rs
    → ((reads n rs || writes n rs) && not (ltb n b)) ≡ false
below n b [] h = refl
below n b (r ∷ rs) h = let less = h.0 in ground (arith, below n b rs h.1)

module _ {T : Type 0} (u : Udprelay T) where
  nfds-AllBelow : AllBelow (nfds u) (u.outward ∷ u.relays)
  unfolding nfds
  nfds-AllBelow =
      let (inner, outer) = max-le (max_fd u.relays 0) u.outward.fd in
      (
        omega arith,
        max_fd-AllBelow u.relays 0 (max (max_fd u.relays 0) u.outward.fd + 1) (omega arith),
      )

  -- A round waits to read from exactly the descriptors of the relays, the outward one included, whose
  -- receive buffer is free, and to write to exactly those that have a datagram pending; all of them
  -- are below the first argument of `select`.
  pub fd_sets-waits :
      (n : ℕ)
      → let (rfds, wfds) = fd_sets u in
        (rfds n ≡ reads n (u.outward ∷ u.relays))
        × (wfds n ≡ writes n (u.outward ∷ u.relays))
        × (((rfds n || wfds n) && not (ltb n (nfds u))) ≡ false)
  unfolding fd_sets
  fd_sets-waits n =
      let (rfds, wfds) = wait_sets u.relays (λ a. false, λ a. false) in
      let (read, written) = wait_sets-member u.relays (λ a. false) (λ a. false) n in
      let read' : (fd_sets u).0 n ≡ reads n (u.outward ∷ u.relays) =
        ground (arith, read, relay_fd_set-reads u.outward rfds wfds n) in
      let written' : (fd_sets u).1 n ≡ writes n (u.outward ∷ u.relays) =
        ground (arith, written, relay_fd_set-writes u.outward rfds wfds n) in
      (
        read',
        written',
        rw (read', written') (below n (nfds u) (u.outward ∷ u.relays) nfds-AllBelow),
      )
