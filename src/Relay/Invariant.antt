-- ===== src/Relay/Invariant.antt =====
-- relay.c: every access to a relay's buffers stays inside them.
use udprelayd.Base.{
  ℕ, ◌≤◌, ◌≡◌, refl, not, ◌&&◌, ◌||◌, List, [], ◌∷◌, arith, ◌==◌, length, take, length-take-le,
  length-take_of_le, ==_iff, Bool-cases, inl, inr, if-both,
}
use udprelayd.Base.Int.{ℤ, pos, negsuc}
use udprelayd.Os.{
  Ssize, size, failed, Arrival, datagram, nothing, Kernel, length-memcpy, sendto, recvfrom, cut,
  is_eagain, is_unreachable, is_emsgsize,
}
use udprelayd.Relay.{
  Relay, FdSet, bytes, buf_sz, relay_queued, reserve, keep_first, hold, enqueue_result,
  relay_enqueue, relay_receive, note_source, read_result, alloc_recv, read_event, Verdict, gone,
  stays, broken, buffer_result, queue_result, write_queue, write_event, is_neg, relay_handle,
}

pub record IsValid (r : Relay) : Type 0 where
  -- the bytes that a write event sends have been written, in the space allocated
  pub send_filled : r.send_size ≤ length (bytes r.send_buffer)
  pub send_fits : length (bytes r.send_buffer) ≤ r.send_buffer_size
  -- the bytes that relay_receive hands out have been received
  pub recv_filled : r.recv_size ≤ length (bytes r.recv_buffer)
  pub recv_fits : length (bytes r.recv_buffer) ≤ buf_sz

-- After `reserve` there is room for the datagram.
reserve-fits :
    (r : Relay) (n : ℕ)
    → IsValid r
    → (n ≤ (reserve r n).send_buffer_size)
      × (length (bytes (reserve r n).send_buffer) ≤ (reserve r n).send_buffer_size)
      × ((reserve r n).recv_size ≤ length (bytes (reserve r n).recv_buffer))
      × (length (bytes (reserve r n).recv_buffer) ≤ buf_sz)
unfolding reserve
reserve-fits r n v = ground arith

keep_first-IsValid : (r : Relay) (buffer : List ℕ) → IsValid r → IsValid (keep_first r buffer)
unfolding keep_first
keep_first-IsValid r buffer v =
    let (room, fits, filled, bound) = reserve-fits r (length buffer) v in
    let l = length-memcpy (bytes (reserve r (length buffer)).send_buffer) buffer in
    record {
      send_filled = omega (arith, l);
      send_fits = omega (arith, l);
      recv_filled = filled;
      recv_fits = bound;
    }

hold-IsValid : (r : Relay) (buffer : List ℕ) → IsValid r → IsValid (hold r buffer)
unfolding hold
hold-IsValid r buffer v =
    if-both IsValid (relay_queued r) _ _
      (record {
        send_filled = v.send_filled;
        send_fits = v.send_fits;
        recv_filled = v.recv_filled;
        recv_fits = v.recv_fits;
      })
      (keep_first-IsValid r buffer v)

enqueue_result-IsValid :
    (r : Relay) (buffer : List ℕ) (sz : Ssize) → IsValid r → IsValid (enqueue_result r buffer sz).1
unfolding enqueue_result
enqueue_result-IsValid r buffer (size n) v =
    if-both (λ (x : ℤ × Relay). IsValid x.1) (n == 0) (negsuc 0, r) (pos 0, r) v v
enqueue_result-IsValid r buffer (failed e) v =
    if-both (λ (x : ℤ × Relay). IsValid x.1) (is_emsgsize e || is_unreachable e) (pos 0, r) _ v
      (if-both (λ (x : ℤ × Relay). IsValid x.1) (not (is_eagain e)) (negsuc 0, r) _ v
        (hold-IsValid r buffer v))

-- relay_enqueue of any datagram keeps a valid relay valid, whatever the kernel answers.
pub relay_enqueue-IsValid :
    (r : Relay) (buffer : List ℕ) (k : Kernel) → IsValid r → IsValid (relay_enqueue r buffer k).0.1
unfolding relay_enqueue
relay_enqueue-IsValid r buffer k v = elim (Bool-cases (r.remote_sa_len == 0)) [
  | inl unset ↦ rw unset v
  | inr set ↦ rw set (
      enqueue_result-IsValid r buffer (sendto r.fd buffer (take r.remote_sa_len r.remote_sa) k).0 v)
]

-- relay_receive of a valid relay hands out as many bytes as it says, leaves nothing received, and
-- keeps the relay valid.
pub relay_receive-IsValid :
    (r : Relay)
    → IsValid r
    → IsValid (relay_receive r).1
      × (length (relay_receive r).0.1 ≡ (relay_receive r).0.0)
      × ((relay_receive r).1.recv_size ≡ 0)
unfolding relay_receive
relay_receive-IsValid r v = elim (Bool-cases (r.recv_size == 0)) [
  | inl idle ↦ rw idle (v, refl, (==_iff _ _).0 idle)
  | inr full ↦ rw full (
    record {
      send_filled = v.send_filled;
      send_fits = v.send_fits;
      recv_filled = omega arith;
      recv_fits = v.recv_fits;
    },
    length-take_of_le r.recv_size (bytes r.recv_buffer) v.recv_filled,
    refl,
  )
]

note_source-IsValid : (r : Relay) (source : List ℕ) → IsValid r → IsValid (note_source r source)
unfolding note_source
note_source-IsValid r source v =
    if-both IsValid r.dynamic_out_addr _ r
      (record {
        send_filled = v.send_filled;
        send_fits = v.send_fits;
        recv_filled = v.recv_filled;
        recv_fits = v.recv_fits;
      })
      v

alloc_recv-IsValid : (r : Relay) → IsValid r → IsValid (alloc_recv r)
unfolding alloc_recv
alloc_recv-IsValid r v = ground arith

abbrev Fits : Arrival → Type 0
Fits (datagram payload source) = length payload ≤ buf_sz
Fits (nothing e) = Unit

cut-Fits : (arrival : Arrival) → Fits (cut buf_sz arrival)
cut-Fits (datagram payload source) = length-take-le buf_sz payload
cut-Fits (nothing e) = tt

read_result-IsValid :
    (r : Relay) (arrival : Arrival) → Fits arrival → IsValid r → IsValid (read_result r arrival).1
unfolding read_result
read_result-IsValid r (nothing e) f v =
    if-both (λ (x : ℤ × Relay). IsValid x.1) (is_eagain e || is_unreachable e) (pos 0, r)
      (negsuc 0, r) v v
read_result-IsValid r (datagram payload source) f v =
    let l = length-memcpy (bytes r.recv_buffer) payload in
    if-both (λ (x : ℤ × Relay). IsValid x.1) (length payload == 0) (negsuc 0, r) _ v
      (note_source-IsValid _ source (record {
        send_filled = v.send_filled;
        send_fits = v.send_fits;
        recv_filled = omega (arith, l);
        recv_fits = omega (arith, l);
      }))

read_event-IsValid :
    (r : Relay) (rfds : FdSet) (k : Kernel) → IsValid r → IsValid (read_event r rfds k).0.1
unfolding read_event recvfrom
read_event-IsValid r rfds k v = elim (Bool-cases (rfds r.fd && (r.recv_size == 0))) [
  | inl ready ↦ rw ready (
      read_result-IsValid (alloc_recv r) (cut buf_sz (k.recv_answer k.recvs))
        (cut-Fits (k.recv_answer k.recvs)) (alloc_recv-IsValid r v))
  | inr idle ↦ rw idle v
]

queue_result-IsValid :
    (r : Relay) (rest : List (List ℕ)) (v : Verdict) → IsValid r → IsValid (queue_result r rest v).1
unfolding queue_result
queue_result-IsValid r rest gone v = ground arith
queue_result-IsValid r rest stays v = v
queue_result-IsValid r rest broken v = v

buffer_result-IsValid : (r : Relay) (v : Verdict) → IsValid r → IsValid (buffer_result r v).1
unfolding buffer_result
buffer_result-IsValid r gone v = ground arith
buffer_result-IsValid r stays v = v
buffer_result-IsValid r broken v = v

write_queue-IsValid :
    (r : Relay) (q : List (List ℕ)) (k : Kernel) → IsValid r → IsValid (write_queue r q k).0.1
unfolding write_queue
write_queue-IsValid r [] k v = v
write_queue-IsValid r (d ∷ ds) k v = queue_result-IsValid r ds _ v

write_event-IsValid :
    (r : Relay) (wfds : FdSet) (k : Kernel) → IsValid r → IsValid (write_event r wfds k).0.1
unfolding write_event
write_event-IsValid r wfds k v = elim (Bool-cases (wfds r.fd)) [
  | inl ready ↦ rw ready (elim (Bool-cases (r.send_size == 0)) [
    | inl idle ↦ rw idle (write_queue-IsValid r r.queue k v)
    | inr busy ↦ rw busy (buffer_result-IsValid r _ v)
  ])
  | inr idle ↦ rw idle v
]

-- relay_handle keeps a valid relay valid, whatever is ready, whatever arrives and whatever the
-- kernel answers.
pub relay_handle-IsValid :
    (r : Relay) (rfds wfds : FdSet) (k : Kernel)
    → IsValid r
    → IsValid (relay_handle r rfds wfds k).0.1
unfolding relay_handle
relay_handle-IsValid r rfds wfds k v =
    let v' = read_event-IsValid r rfds k v in
    let (res, k') = read_event r rfds k in
    elim (Bool-cases (is_neg res.0)) [
      | inl bad ↦ rw bad v'
      | inr fine ↦ rw fine (write_event-IsValid res.1 wfds k' v')
    ]
