-- ===== src/Relay/Writes.antt =====
-- relay.c, relay_handle: the datagrams that wait leave in their order.
use udprelayd.Base.{
  ℕ, zero, suc, ◌≡◌, refl, ◌∙◌, ap, arith, true, false, ◌&&◌, ◌||◌, List, [], ◌∷◌, ◌==◌, length,
  take, Bool-cases, if-both, ==_iff, inl, inr,
}
use udprelayd.Base.Int.{ℤ, pos, negsuc}
use udprelayd.Os.{
  Ssize, size, failed, eagain, emsgsize, ehostunreach, enetunreach, eintr, other, is_eagain,
  is_unreachable, Arrival, datagram, nothing, Cmd, pure, ◌>>=◌, Kernel, sendto, recvfrom,
}
use udprelayd.Relay.Fifo.{pending, pending-none, pending-queue, pending-buffer}
use udprelayd.Relay.{
  Relay, FdSet, alloc_recv, buf_sz, bytes, is_null, dest, read_result, note_source, read_event,
  Verdict, gone, stays, broken, write_verdict, buffer_result, queue_result, write_queue,
  write_event,
}

-- What a write event does with the result for the datagram that stands first.
unfoldable pub settle : Verdict → List (List ℕ) → ℤ × List (List ℕ)
settle v [] = (pos 0, [])
settle gone (d ∷ ds) = (pos 0, ds)
settle stays (d ∷ ds) = (pos 0, d ∷ ds)
settle broken (d ∷ ds) = (negsuc 0, d ∷ ds)

-- What becomes of a datagram that the kernel has answered.
unfoldable pub answered : Ssize → Verdict
answered (size zero) = broken
answered (size (suc n)) = gone
answered (failed eagain) = stays
answered (failed emsgsize) = gone
answered (failed ehostunreach) = gone
answered (failed enetunreach) = gone
answered (failed eintr) = broken
answered (failed other) = broken

pub write_verdict-answered : (sz : Ssize) → write_verdict sz ≡ answered sz
unfolding write_verdict answered
write_verdict-answered (size zero) = refl
write_verdict-answered (size (suc n)) = ground arith
write_verdict-answered (failed eagain) = refl
write_verdict-answered (failed e) = refl

-- The specification of a write event: the first datagram is offered to the kernel.
unfoldable pub offer : ℕ → List ℕ → List (List ℕ) → Cmd (ℤ × List (List ℕ))
offer fd to [] k = ((pos 0, []), k)
offer fd to (d ∷ ds) k = let (sz, k') = sendto fd d to k in (settle (answered sz) (d ∷ ds), k')

queue_result-settle :
    (r : Relay) (d : List ℕ) (ds : List (List ℕ)) (v : Verdict)
    → r.queue ≡ d ∷ ds
    → r.send_size ≡ 0
    → (let res = queue_result r ds v in (res.0, pending res.1)) ≡ settle v (d ∷ ds)
unfolding queue_result settle pending
queue_result-settle r d ds gone e idle = rw idle
queue_result-settle r d ds stays e idle = rw (idle, e)
queue_result-settle r d ds broken e idle = rw (idle, e)

buffer_result-settle :
    (r : Relay) (v : Verdict)
    → (r.send_size == 0) ≡ false
    → (let res = buffer_result r v in (res.0, pending res.1))
      ≡ settle v (take r.send_size (bytes r.send_buffer) ∷ r.queue)
unfolding buffer_result settle pending
buffer_result-settle r gone busy = refl
buffer_result-settle r stays busy = rw busy
buffer_result-settle r broken busy = rw busy

-- What a call of relay_handle or of one of its parts leaves, seen as a queue.
abbrev pub seen : (ℤ × Relay) × Kernel → (ℤ × List (List ℕ)) × Kernel
seen ((ret, r), k) = ((ret, pending r), k)

write_queue-offer :
    (r : Relay) (q : List (List ℕ)) (k : Kernel)
    → r.queue ≡ q
    → r.send_size ≡ 0
    → seen (write_queue r q k) ≡ offer r.fd (dest r) q k
unfolding write_queue offer
write_queue-offer r [] k e idle = rw (pending-none r e idle)
write_queue-offer r (d ∷ ds) k e idle =
    let (sz, k') = sendto r.fd d (dest r) k in
    ap (λ x. (x, k'))
      (queue_result-settle r d ds (write_verdict sz) e idle
        ∙ ap (λ v. settle v (d ∷ ds)) (write_verdict-answered sz))

write_buffer-offer :
    (r : Relay) (k : Kernel)
    → (r.send_size == 0) ≡ false
    → seen (
        (do
          sz ← sendto r.fd (take r.send_size (bytes r.send_buffer)) (dest r)
          pure (buffer_result r (write_verdict sz)))
          k)
      ≡ offer r.fd (dest r) (pending r) k
unfolding offer
write_buffer-offer r k busy =
    let first = take r.send_size (bytes r.send_buffer) in
    let (sz, k') = sendto r.fd first (dest r) k in
    rw (pending-buffer r busy) (
      ap (λ x. (x, k'))
        (buffer_result-settle r (write_verdict sz) busy
          ∙ ap (λ v. settle v (first ∷ r.queue)) (write_verdict-answered sz)))

-- When the relay's descriptor is ready, a write event offers the first waiting datagram to the
-- kernel, if there is one, and drops it from what waits exactly when the kernel takes it or says
-- that it can never be sent.
pub write_event-offer :
    (r : Relay) (wfds : FdSet) (k : Kernel)
    → wfds r.fd ≡ true
    → seen (write_event r wfds k) ≡ offer r.fd (dest r) (pending r) k
unfolding write_event
write_event-offer r wfds k ready = elim (Bool-cases (r.send_size == 0)) [
  | inl idle ↦
      rw ready
        (rw (idle, pending-queue r idle) (write_queue-offer r r.queue k refl ((==_iff _ _).0 idle)))
  | inr busy ↦ rw ready (rw busy (write_buffer-offer r k busy))
]

pub write_event-idle :
    (r : Relay) (wfds : FdSet) (k : Kernel)
    → wfds r.fd ≡ false
    → write_event r wfds k ≡ ((pos 0, r), k)
unfolding write_event
write_event-idle r wfds k idle = rw idle

-- The parts of a relay that a read event does not touch.
pub record SameQueue (r r' : Relay) : Type 0 where
  pub same_fd : r'.fd ≡ r.fd
  pub same_pending : pending r' ≡ pending r

note_source-SameQueue :
    (r r' : Relay) (source : List ℕ) → SameQueue r r' → SameQueue r (note_source r' source)
unfolding note_source pending
note_source-SameQueue r r' source s =
    if-both (SameQueue r) r'.dynamic_out_addr _ _
      (record { same_fd = s.same_fd; same_pending = s.same_pending }) s

read_result-SameQueue :
    (r r' : Relay) (arrival : Arrival) → SameQueue r r' → SameQueue r (read_result r' arrival).1
unfolding read_result pending
read_result-SameQueue r r' (nothing e) s =
    if-both (λ (x : ℤ × Relay). SameQueue r x.1) (is_eagain e || is_unreachable e) (pos 0, r')
      (negsuc 0, r') s s
read_result-SameQueue r r' (datagram payload source) s =
    if-both (λ (x : ℤ × Relay). SameQueue r x.1) (length payload == 0) (negsuc 0, r') _ s
      (note_source-SameQueue r _ source
        (record { same_fd = s.same_fd; same_pending = s.same_pending }))

alloc_recv-SameQueue : (r : Relay) → SameQueue r (alloc_recv r)
unfolding alloc_recv pending
alloc_recv-SameQueue r =
    if-both (SameQueue r) (is_null r.recv_buffer) _ r
      (record { same_fd = refl; same_pending = refl })
      (record { same_fd = refl; same_pending = refl })

-- A read event, whatever arrives, leaves the datagrams that wait alone.
pub read_event-SameQueue :
    (r : Relay) (rfds : FdSet) (k : Kernel) → SameQueue r (read_event r rfds k).0.1
unfolding read_event
read_event-SameQueue r rfds k = elim (Bool-cases (rfds r.fd && (r.recv_size == 0))) [
  | inl ready ↦
      rw ready
        (read_result-SameQueue r (alloc_recv r) (recvfrom r.fd buf_sz k).0 (alloc_recv-SameQueue r))
  | inr idle ↦ rw idle (record { same_fd = refl; same_pending = refl })
]
