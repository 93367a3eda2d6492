-- ===== src/Descriptors/Relays.antt =====
-- relay.c: no command on a relay changes its descriptor, and only free_relay closes it.
use udprelayd.Base.{ℕ, ◌≡◌, refl, ◌∙◌, ◌&&◌, inl, inr, List, [], ◌∷◌, ◌==◌, arith, Bool-cases, take}
use udprelayd.Base.Int.{ℤ}
use udprelayd.Os.{
  Kernel, Ssize, size, failed, Arrival, datagram, nothing, sent, received, closed, sendto, recvfrom,
  close,
}
use udprelayd.Relay.{
  Relay, FdSet, is_neg, relay_enqueue, enqueue_result, hold, keep_first, reserve, relay_receive,
  relay_handle, read_event, read_result, note_source, alloc_recv, write_event, write_queue, Verdict,
  gone, stays, broken, buffer_result, queue_result, buf_sz, bytes, dest, free_relay,
}
use udprelayd.Setup.Counts.{occurrences}
use udprelayd.Descriptors.{closes}
use udprelayd.Descriptors.Holds.{Holds, closes-append}

-- The descriptor of a relay that comes with a result.
abbrev pub result_fds : ℤ × Relay → List ℕ
result_fds res = res.1.fd ∷ []

module _ (fd : ℕ) (k : Kernel) where
  sendto-closes :
      (a : ℕ) (buffer dest : List ℕ) → closes fd (sendto a buffer dest k).1.log ≡ closes fd k.log
  unfolding sendto closes
  sendto-closes a buffer dest =
      omega (arith, closes-append fd k.log (sent a buffer dest (k.send_answer k.sends) ∷ []))

  recvfrom-closes : (a n : ℕ) → closes fd (recvfrom a n k).1.log ≡ closes fd k.log
  unfolding recvfrom closes
  recvfrom-closes a n = omega (arith, closes-append fd k.log (received a ∷ []))

hold-fd : (r : Relay) (buffer : List ℕ) → (hold r buffer).fd ≡ r.fd
unfolding hold keep_first reserve
hold-fd r buffer = ground arith

enqueue_result-fd :
    (r : Relay) (buffer : List ℕ) (sz : Ssize) → (enqueue_result r buffer sz).1.fd ≡ r.fd
unfolding enqueue_result
enqueue_result-fd r buffer (size n) = ground arith
enqueue_result-fd r buffer (failed e) = ground (arith, hold-fd r buffer)

pub relay_enqueue-Holds :
    (r : Relay) (buffer : List ℕ) → Holds (r.fd ∷ []) (relay_enqueue r buffer) result_fds
unfolding Holds relay_enqueue
relay_enqueue-Holds r buffer k fd = elim (Bool-cases (r.remote_sa_len == 0)) [
  | inl unset ↦ rw unset refl
  | inr set ↦
      rw set (rw (sendto-closes fd k r.fd buffer (dest r), enqueue_result-fd r buffer _) refl)
]

pub relay_receive-fd : (r : Relay) → (relay_receive r).1.fd ≡ r.fd
unfolding relay_receive
relay_receive-fd r = ground arith

read_result-fd : (r : Relay) (arrival : Arrival) → (read_result (alloc_recv r) arrival).1.fd ≡ r.fd
unfolding read_result note_source alloc_recv
read_result-fd r (datagram payload source) = ground arith
read_result-fd r (nothing e) = ground arith

abbrev pub Kept : Kernel → Relay → (ℤ × Relay) × Kernel → Type 0
Kept k r (res, k') = (res.1.fd ≡ r.fd) × ((fd : ℕ) → closes fd k'.log ≡ closes fd k.log)

read_event-Kept : (r : Relay) (rfds : FdSet) (k : Kernel) → Kept k r (read_event r rfds k)
unfolding read_event
read_event-Kept r rfds k = elim (Bool-cases (rfds r.fd && (r.recv_size == 0))) [
  | inl ready ↦ rw ready (read_result-fd r _, λ fd. recvfrom-closes fd k r.fd buf_sz)
  | inr idle ↦ rw idle (refl, λ fd. refl)
]

buffer_result-fd : (r : Relay) (v : Verdict) → (buffer_result r v).1.fd ≡ r.fd
unfolding buffer_result
buffer_result-fd r gone = refl
buffer_result-fd r stays = refl
buffer_result-fd r broken = refl

queue_result-fd :
    (r : Relay) (rest : List (List ℕ)) (v : Verdict) → (queue_result r rest v).1.fd ≡ r.fd
unfolding queue_result
queue_result-fd r rest gone = refl
queue_result-fd r rest stays = refl
queue_result-fd r rest broken = refl

write_queue-Kept :
    (r : Relay) (queue : List (List ℕ)) (k : Kernel) → Kept k r (write_queue r queue k)
unfolding write_queue
write_queue-Kept r [] k = (refl, λ fd. refl)
write_queue-Kept r (item ∷ rest) k =
    (queue_result-fd r rest _, λ fd. sendto-closes fd k r.fd item (dest r))

write_event-Kept : (r : Relay) (wfds : FdSet) (k : Kernel) → Kept k r (write_event r wfds k)
unfolding write_event
write_event-Kept r wfds k = elim (Bool-cases (wfds r.fd)) [
  | inr idle ↦ rw idle (refl, λ fd. refl)
  | inl ready ↦ elim (Bool-cases (r.send_size == 0)) [
    | inl none_first ↦ rw ready (rw none_first (write_queue-Kept r r.queue k))
    | inr first ↦ rw ready (
        rw first (
          buffer_result-fd r _,
          λ fd. sendto-closes fd k r.fd (take r.send_size (bytes r.send_buffer)) (dest r),
        ))
  ]
]

pub relay_handle-Kept :
    (r : Relay) (rfds wfds : FdSet) (k : Kernel) → Kept k r (relay_handle r rfds wfds k)
unfolding relay_handle
relay_handle-Kept r rfds wfds k =
    let (res, k₁) = read_event r rfds k in
    let (same, logged) = read_event-Kept r rfds k in
    elim (Bool-cases (is_neg res.0)) [
      | inl bad ↦ rw bad (same, logged)
      | inr fine ↦
          let (same', logged') = write_event-Kept res.1 wfds k₁ in
          rw fine (same' ∙ same, λ fd. logged' fd ∙ logged fd)
    ]

pub relay_handle-Holds :
    (r : Relay) (rfds wfds : FdSet) → Holds (r.fd ∷ []) (relay_handle r rfds wfds) result_fds
unfolding Holds
relay_handle-Holds r rfds wfds k fd =
    let (same, logged) = relay_handle-Kept r rfds wfds k in rw (same, logged fd) refl

pub free_relay-Holds : (r : Relay) (p : List ℕ) → Holds (r.fd ∷ p) (free_relay r) (λ u. p)
unfolding Holds free_relay close closes occurrences
free_relay-Holds r p k fd = omega (arith, closes-append fd k.log (closed r.fd ∷ []))
