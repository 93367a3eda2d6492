-- ===== src/Relay/Fifo.antt =====
-- relay.c, relay_enqueue: the send buffer and the queue together are one first-in first-out queue.
use udprelayd.Base.{
  ℕ, ◌<◌, ◌≡◌, ◌∙◌, sym, true, false, List, [], ◌∷◌, ◌++◌, append-nil, arith, ◌==◌, if◌then◌else◌,
  length, take, Bool-cases, inl, inr,
}
use udprelayd.Os.{is_eagain, Ssize, size, failed, Kernel, take-memcpy, sendto, eagain}
use udprelayd.Relay.{
  Relay, bytes, relay_queued, reserve, keep_first, hold, enqueue_result, relay_enqueue,
}

-- The datagrams that wait, the next one first.
unfoldable pub pending : Relay → List (List ℕ)
pending r = if r.send_size == 0 then r.queue else take r.send_size (bytes r.send_buffer) ∷ r.queue

-- Nothing is queued: the send buffer is free and the queue empty.
relay_queued-false : (r : Relay) → relay_queued r ≡ false → (r.send_size ≡ 0) × (r.queue ≡ [])
unfolding relay_queued
relay_queued-false r e = ground arith

reserve-queue : (r : Relay) (n : ℕ) → (reserve r n).queue ≡ r.queue
unfolding reserve
reserve-queue r n = ground arith

keep_first-pending :
    (r : Relay) (buffer : List ℕ)
    → 0 < length buffer
    → pending (keep_first r buffer) ≡ buffer ∷ r.queue
unfolding pending keep_first
keep_first-pending r buffer some_bytes = rw (
  not_zero (length buffer) some_bytes,
  take-memcpy (bytes (reserve r (length buffer)).send_buffer) buffer,
  reserve-queue r (length buffer),
)
  where
    not_zero : (n : ℕ) → 0 < n → (n == 0) ≡ false
    not_zero n h = ground arith

pending-behind :
    (r : Relay) (buffer : List ℕ)
    → pending (record r { queue = r.queue ++ buffer ∷ [] }) ≡ pending r ++ buffer ∷ []
unfolding pending
pending-behind r buffer = ground arith

pending-idle :
    (r : Relay) (buffer : List ℕ)
    → r.send_size ≡ 0
    → r.queue ≡ []
    → buffer ∷ r.queue ≡ pending r ++ buffer ∷ []
unfolding pending
pending-idle r buffer e q = rw (e, q)

pub pending-none : (r : Relay) → r.queue ≡ [] → r.send_size ≡ 0 → pending r ≡ []
unfolding pending
pending-none r q e = rw (e, q)

pub pending-queue : (r : Relay) → (r.send_size == 0) ≡ true → pending r ≡ r.queue
unfolding pending
pending-queue r e = rw e

pub pending-buffer :
    (r : Relay)
    → (r.send_size == 0) ≡ false
    → pending r ≡ take r.send_size (bytes r.send_buffer) ∷ r.queue
unfolding pending
pending-buffer r e = rw e

-- A datagram that is held back stands last.
hold-pending :
    (r : Relay) (buffer : List ℕ)
    → 0 < length buffer
    → pending (hold r buffer) ≡ pending r ++ buffer ∷ []
unfolding hold
hold-pending r buffer some_bytes = elim (Bool-cases (relay_queued r)) [
  | inl queued ↦ rw queued (pending-behind r buffer)
  | inr idle ↦
      let (empty, no_queue) = relay_queued-false r idle in
      rw idle (keep_first-pending r buffer some_bytes ∙ pending-idle r buffer empty no_queue)
]

-- The datagrams that a call of relay_enqueue holds back: its own, if the kernel has no room.
unfoldable pub held : Relay → List ℕ → Kernel → List (List ℕ)
held r buffer k = if r.remote_sa_len == 0 then [] else elim (k.send_answer k.sends) [
  | size n ↦ []
  | failed e ↦ if is_eagain e then buffer ∷ [] else []
]

enqueue_result-pending :
    (r : Relay) (buffer : List ℕ) (sz : Ssize)
    → 0 < length buffer
    → pending (enqueue_result r buffer sz).1
      ≡ pending r ++ elim sz [ size n ↦ [] | failed e ↦ if is_eagain e then buffer ∷ [] else [] ]
unfolding enqueue_result
enqueue_result-pending r buffer (size n) h = ground (arith, append-nil (pending r))
enqueue_result-pending r buffer (failed eagain) h = hold-pending r buffer h
enqueue_result-pending r buffer (failed e) h = sym (append-nil (pending r))

-- relay_enqueue adds at the end what it holds back, and nothing else.
pub relay_enqueue-pending :
    (r : Relay) (buffer : List ℕ) (k : Kernel)
    → 0 < length buffer
    → pending (relay_enqueue r buffer k).0.1 ≡ pending r ++ held r buffer k
unfolding relay_enqueue held sendto
relay_enqueue-pending r buffer k h = elim (Bool-cases (r.remote_sa_len == 0)) [
  | inl unset ↦ rw unset (sym (append-nil (pending r)))
  | inr set ↦ rw set (enqueue_result-pending r buffer (k.send_answer k.sends) h)
]
