-- ===== src/Daemon/Drains.antt =====
-- relay.c: on a kernel that is done with every datagram it is given, what waits in a relay leaves.
use udprelayd.Base.{
  ℕ, zero, suc, ◌≤◌, ◌≡◌, refl, ◌∙◌, ap, Bool, true, false, List, [], ◌∷◌, ◌&&◌, arith, ◌==◌,
  length, if◌then◌else◌, Bool-cases, inl, inr,
}
use udprelayd.Os.{Kernel, Ssize, size, failed, eagain, eintr, other, sendto, recvfrom}
use udprelayd.Relay.{
  Relay, FdSet, dest, relay_enqueue, enqueue_result, relay_handle, read_event, write_event,
  write_queue, Verdict, gone,
}
use udprelayd.Relay.Fifo.{pending}
use udprelayd.Relay.Writes.{
  settle, answered, offer, write_event-offer, write_event-idle, read_event-SameQueue,
}
use udprelayd.Relay.Runs.{Op, enqueue, handle, run}
use udprelayd.Daemon.Benign.{Benign, read_event-fine, write_event-fine}
use udprelayd.Descriptors.Relays.{relay_handle-Kept}

-- No failure, and no datagram that the kernel has no room for.
pub record Willing (k : Kernel) : Type 0 where
  pub benign : Benign k
  pub done : (n : ℕ) → answered (k.send_answer n) ≡ gone

-- The calls of relay_handle in which the descriptor is ready to write.
unfoldable pub chances : ℕ → List Op → ℕ
chances fd [] = 0
chances fd (enqueue buffer ∷ ops) = chances fd ops
chances fd (handle rfds wfds ∷ ops) =
    let rest = chances fd ops in if wfds fd then suc rest else rest

abbrev IsGone : Verdict → Type 0
IsGone gone = Unit
IsGone _ = ⊥

-- Nothing is held back.
enqueue_result-steady :
    (r : Relay) (buffer : List ℕ) (sz : Ssize)
    → IsGone (answered sz)
    → (enqueue_result r buffer sz).1 ≡ r
unfolding enqueue_result answered
enqueue_result-steady r buffer (size zero) h = absurd h
enqueue_result-steady r buffer (size (suc n)) h = ground arith
enqueue_result-steady r buffer (failed eagain) h = absurd h
enqueue_result-steady r buffer (failed eintr) h = absurd h
enqueue_result-steady r buffer (failed other) h = absurd h
enqueue_result-steady r buffer (failed e) h = refl

relay_enqueue-steady :
    (r : Relay) (buffer : List ℕ) (k : Kernel)
    → Willing k
    → ((relay_enqueue r buffer k).0.1 ≡ r) × Willing (relay_enqueue r buffer k).1
unfolding relay_enqueue sendto
relay_enqueue-steady r buffer k w = elim (Bool-cases (r.remote_sa_len == 0)) [
  | inl unset ↦ rw unset (refl, w)
  | inr set ↦ rw set (
    enqueue_result-steady r buffer (k.send_answer k.sends) (rw (w.done k.sends) tt),
    record { benign = record { soft = w.benign.soft; good = w.benign.good }; done = w.done },
  )
]

read_event-answers :
    (r : Relay) (rfds : FdSet) (k : Kernel) → (read_event r rfds k).1.send_answer ≡ k.send_answer
unfolding read_event recvfrom
read_event-answers r rfds k = elim (Bool-cases (rfds r.fd && (r.recv_size == 0))) [
  | inl ready ↦ rw ready refl
  | inr idle ↦ rw idle refl
]

write_queue-answers :
    (r : Relay) (queue : List (List ℕ)) (k : Kernel)
    → (write_queue r queue k).1.send_answer ≡ k.send_answer
unfolding write_queue sendto
write_queue-answers r [] k = refl
write_queue-answers r (item ∷ rest) k = refl

write_event-answers :
    (r : Relay) (wfds : FdSet) (k : Kernel) → (write_event r wfds k).1.send_answer ≡ k.send_answer
unfolding write_event sendto
write_event-answers r wfds k = elim (Bool-cases (wfds r.fd)) [
  | inr idle ↦ rw idle refl
  | inl ready ↦ elim (Bool-cases (r.send_size == 0)) [
    | inl none_first ↦ rw ready (rw none_first (write_queue-answers r r.queue k))
    | inr first ↦ rw ready (rw first refl)
  ]
]

abbrev behind : List (List ℕ) → List (List ℕ)
behind [] = []
behind (d ∷ ds) = ds

offer-behind :
    (fd : ℕ) (to : List ℕ) (q : List (List ℕ)) (k : Kernel)
    → answered (k.send_answer k.sends) ≡ gone
    → (offer fd to q k).0.1 ≡ behind q
unfolding offer sendto settle
offer-behind fd to [] k e = refl
offer-behind fd to (d ∷ ds) k e = rw e refl

-- A chance takes the first datagram that waits.
write_event-behind :
    (r : Relay) (wfds : FdSet) (k : Kernel)
    → answered (k.send_answer k.sends) ≡ gone
    → pending (write_event r wfds k).0.1 ≡ (if wfds r.fd then behind (pending r) else pending r)
write_event-behind r wfds k e = elim (Bool-cases (wfds r.fd)) [
  | inl ready ↦
      let leaves : pending (write_event r wfds k).0.1 ≡ (offer r.fd (dest r) (pending r) k).0.1 =
        ap (λ x. x.0.1) (write_event-offer r wfds k ready) in
      rw ready (leaves ∙ offer-behind r.fd (dest r) (pending r) k e)
  | inr idle ↦ rw (idle, write_event-idle r wfds k idle) refl
]

relay_handle-behind :
    (r : Relay) (rfds wfds : FdSet) (k : Kernel)
    → Willing k
    → (pending (relay_handle r rfds wfds k).0.1
        ≡ (if wfds r.fd then behind (pending r) else pending r))
      × Willing (relay_handle r rfds wfds k).1
unfolding relay_handle
relay_handle-behind r rfds wfds k w =
    let ((ret, r'), k') = read_event r rfds k in
    let (fine, b) = read_event-fine r rfds k w.benign in
    let same = read_event-SameQueue r rfds k in
    let answers = read_event-answers r rfds k in
    let kept : (n : ℕ) → answered (k'.send_answer n) ≡ gone =
      λ n. ap (λ f. answered (f n)) answers ∙ w.done n in
    rw fine (
      write_event-behind r' wfds k' (kept k'.sends)
          ∙ ap (λ n. if wfds n then behind (pending r') else pending r') same.same_fd
          ∙ ap (λ q. if wfds r.fd then behind q else q) same.same_pending,
      record {
        benign = (write_event-fine r' wfds k' b).1;
        done = λ n. ap (λ f. answered (f n)) (write_event-answers r' wfds k') ∙ kept n;
      },
    )

length-behind :
    (q : List (List ℕ)) (b : Bool) (n : ℕ)
    → length q ≤ (if b then suc n else n)
    → length (if b then behind q else q) ≤ n
length-behind [] true n h = omega arith
length-behind (d ∷ ds) true n h = omega arith
length-behind q false n h = h

-- On a kernel that never fails hard, never hands out an empty datagram and is done with every
-- datagram that it is given, nothing waits in a relay any more after a run of relay_enqueue and
-- relay_handle, in any order, in which its descriptor has been ready to write for at least as many
-- calls of relay_handle as datagrams waited in it.
pub run-drains :
    (ops : List Op) (r : Relay) (k : Kernel)
    → Willing k
    → length (pending r) ≤ chances r.fd ops
    → pending (run ops r k).0 ≡ []
unfolding run chances
run-drains [] r k w h = nil (pending r) h
  where
    nil : (q : List (List ℕ)) → length q ≤ 0 → q ≡ []
    nil [] h = refl
    nil (d ∷ ds) h = absurd (omega arith)
run-drains (enqueue buffer ∷ ops) r k w h =
    let (same, w') = relay_enqueue-steady r buffer k w in
    run-drains ops (relay_enqueue r buffer k).0.1 (relay_enqueue r buffer k).1 w' (rw same h)
run-drains (handle rfds wfds ∷ ops) r k w h =
    let ((ret, r'), k') = relay_handle r rfds wfds k in
    let (leaves, w') = relay_handle-behind r rfds wfds k w in
    let same = (relay_handle-Kept r rfds wfds k).0 in
    run-drains ops r' k' w'
      (rw (leaves, same) (length-behind (pending r) (wfds r.fd) (chances r.fd ops) h))
