-- ===== src/Daemon/Benign.antt =====
-- A kernel without failures: what the commands of relay.c do there.
use udprelayd.Base.{
  ℕ, zero, suc, ◌<◌, ◌≡◌, refl, Bool, true, false, not, ◌&&◌, ◌||◌, List, [], ◌∷◌, arith, ◌==◌,
  length, take, Bool-cases, inl, inr,
}
use udprelayd.Base.Int.{ℤ}
use udprelayd.Os.{
  Kernel, Cmd, Ssize, size, failed, eagain, Arrival, datagram, nothing, is_eagain, is_unreachable,
  cut, sendto, recvfrom,
}
use udprelayd.Relay.{
  Relay, FdSet, is_neg, relay_enqueue, relay_handle, read_event, read_result, alloc_recv,
  write_event, write_queue, Verdict, gone, stays, broken, write_verdict, buffer_result,
  queue_result, buf_sz,
}
use udprelayd.Relay.Invariant
use udprelayd.Relay.Invariant.{relay_enqueue-IsValid, relay_handle-IsValid}
use udprelayd.Relay.Answers.{hard, relay_enqueue-hard}

-- What arrives without a failure: a datagram with at least one byte, or an error to skip.
abbrev pub GoodArrival : Arrival → Type 0
GoodArrival (datagram payload source) = 0 < length payload
GoodArrival (nothing e) = (is_eagain e || is_unreachable e) ≡ true

pub record Benign (k : Kernel) : Type 0 where
  pub soft : (n : ℕ) → hard (k.send_answer n) ≡ false
  pub good : (n : ℕ) → GoodArrival (k.recv_answer n)

-- On such a kernel the command's result has the property.
abbrev pub Does : {A : Type 0} → (A → Type 0) → Cmd A → Type 0
Does P m = (k : Kernel) → Benign k → P (m k).0 × Benign (m k).1

-- A result of relay.c that is no failure.
abbrev pub Fine : ℤ × Relay → Type 0
Fine (ret, r) = (is_neg ret ≡ false) × Invariant.IsValid r

relay_enqueue-Benign :
    (r : Relay) (buffer : List ℕ) (k : Kernel) → Benign k → Benign (relay_enqueue r buffer k).1
unfolding relay_enqueue sendto
relay_enqueue-Benign r buffer k b = elim (Bool-cases (r.remote_sa_len == 0)) [
  | inl unset ↦ rw unset b
  | inr set ↦ rw set (record { soft = b.soft; good = b.good })
]

and_false : (b : Bool) → (b && false) ≡ false
and_false true = refl
and_false false = refl

pub relay_enqueue-Does :
    (r : Relay) (buffer : List ℕ) → Invariant.IsValid r → Does Fine (relay_enqueue r buffer)
relay_enqueue-Does r buffer v k b = (
  (
    rw (relay_enqueue-hard r buffer k, b.soft k.sends) (and_false (not (r.remote_sa_len == 0))),
    relay_enqueue-IsValid r buffer k v,
  ),
  relay_enqueue-Benign r buffer k b,
)

some_taken :
    (n : ℕ) (payload : List ℕ) → 0 < n → 0 < length payload → (length (take n payload) == 0) ≡ false
some_taken zero payload hn h = absurd (omega arith)
some_taken (suc n) [] hn h = absurd (omega arith)
some_taken (suc n) (b ∷ bs) hn h = ground arith

read_result-fine :
    (r : Relay) (arrival : Arrival)
    → GoodArrival arrival
    → is_neg (read_result r (cut buf_sz arrival)).0 ≡ false
unfolding read_result
read_result-fine r (datagram payload source) h = rw (some_taken buf_sz payload (omega arith) h)
read_result-fine r (nothing e) h = rw h

pub read_event-fine :
    (r : Relay) (rfds : FdSet) (k : Kernel)
    → Benign k
    → (is_neg (read_event r rfds k).0.0 ≡ false) × Benign (read_event r rfds k).1
unfolding read_event recvfrom
read_event-fine r rfds k b = elim (Bool-cases (rfds r.fd && (r.recv_size == 0))) [
  | inl ready ↦ rw ready (
    read_result-fine (alloc_recv r) (k.recv_answer k.recvs) (b.good k.recvs),
    record { soft = b.soft; good = b.good },
  )
  | inr idle ↦ rw idle (refl, b)
]

abbrev is_broken : Verdict → Bool
is_broken gone = false
is_broken stays = false
is_broken broken = true

write_verdict-hard : (sz : Ssize) → is_broken (write_verdict sz) ≡ hard sz
unfolding write_verdict hard
write_verdict-hard (size n) = ground arith
write_verdict-hard (failed eagain) = refl
write_verdict-hard (failed e) = refl

buffer_result-broken : (r : Relay) (v : Verdict) → is_neg (buffer_result r v).0 ≡ is_broken v
unfolding buffer_result
buffer_result-broken r gone = refl
buffer_result-broken r stays = refl
buffer_result-broken r broken = refl

queue_result-broken :
    (r : Relay) (rest : List (List ℕ)) (v : Verdict)
    → is_neg (queue_result r rest v).0 ≡ is_broken v
unfolding queue_result
queue_result-broken r rest gone = refl
queue_result-broken r rest stays = refl
queue_result-broken r rest broken = refl

write_queue-fine :
    (r : Relay) (queue : List (List ℕ)) (k : Kernel)
    → Benign k
    → (is_neg (write_queue r queue k).0.0 ≡ false) × Benign (write_queue r queue k).1
unfolding write_queue sendto
write_queue-fine r [] k b = (refl, b)
write_queue-fine r (item ∷ rest) k b = (
  rw (
    queue_result-broken r rest (write_verdict (k.send_answer k.sends)),
    write_verdict-hard (k.send_answer k.sends),
    b.soft k.sends,
  ),
  record { soft = b.soft; good = b.good },
)

pub write_event-fine :
    (r : Relay) (wfds : FdSet) (k : Kernel)
    → Benign k
    → (is_neg (write_event r wfds k).0.0 ≡ false) × Benign (write_event r wfds k).1
unfolding write_event sendto
write_event-fine r wfds k b = elim (Bool-cases (wfds r.fd)) [
  | inr idle ↦ rw idle (refl, b)
  | inl ready ↦ elim (Bool-cases (r.send_size == 0)) [
    | inl none_first ↦ rw ready (rw none_first (write_queue-fine r r.queue k b))
    | inr first ↦ rw ready (
        rw first (
          rw (
            buffer_result-broken r (write_verdict (k.send_answer k.sends)),
            write_verdict-hard (k.send_answer k.sends),
            b.soft k.sends,
          ),
          record { soft = b.soft; good = b.good },
        ))
  ]
]

relay_handle-fine :
    (r : Relay) (rfds wfds : FdSet) (k : Kernel)
    → Benign k
    → (is_neg (relay_handle r rfds wfds k).0.0 ≡ false) × Benign (relay_handle r rfds wfds k).1
unfolding relay_handle
relay_handle-fine r rfds wfds k b =
    let (fine, b') = read_event-fine r rfds k b in
    rw fine (write_event-fine (read_event r rfds k).0.1 wfds (read_event r rfds k).1 b')

pub relay_handle-Does :
    (r : Relay) (rfds wfds : FdSet) → Invariant.IsValid r → Does Fine (relay_handle r rfds wfds)
relay_handle-Does r rfds wfds v k b =
    let (fine, b') = relay_handle-fine r rfds wfds k b in
    ((fine, relay_handle-IsValid r rfds wfds k v), b')
