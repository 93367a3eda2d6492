-- ===== src/Relay/Datagrams.antt =====
-- relay.c: what one datagram does, from its arrival to relay_receive, and what an empty one does.
use udprelayd.Base.{
  ℕ, ◌≤◌, ◌<◌, ◌≡◌, refl, ◌∙◌, if-both, some, ◌&&◌, true, false, List, arith, ◌==◌, if◌then◌else◌,
  length, take, Bool-cases, inl, inr, take_of_length-le, [],
}
use udprelayd.Base.Int.{pos, negsuc}
use udprelayd.Os.{datagram, Kernel, memcpy, take-memcpy, recvfrom, cut}
use udprelayd.Relay.{
  Relay, FdSet, bytes, dest, buf_sz, relay_receive, note_source, read_result, alloc_recv,
  read_event, relay_handle,
}

-- When the descriptor is ready, nothing is held and an empty datagram, which UDP allows, arrives,
-- relay_handle reports an error.
pub relay_handle-empty :
    (r : Relay) (rfds wfds : FdSet) (k : Kernel) (source : List ℕ)
    → rfds r.fd ≡ true
    → r.recv_size ≡ 0
    → k.recv_answer k.recvs ≡ datagram [] source
    → (relay_handle r rfds wfds k).0.0 ≡ negsuc 0
unfolding relay_handle read_event recvfrom read_result
relay_handle-empty r rfds wfds k source ready idle arrival = rw (ready, idle) (rw arrival refl)

pub not_zero : (n : ℕ) → 0 < n → (n == 0) ≡ false
not_zero n h = ground arith

-- What a read event makes of a datagram: the receive buffer shows it, and a relay without an
-- address of its own answers to the source of the datagram.
note_source-dest :
    (r : Relay) (source : List ℕ)
    → dest (note_source r source) ≡ (if r.dynamic_out_addr then source else dest r)
unfolding note_source
note_source-dest r source = elim (Bool-cases r.dynamic_out_addr) [
  | inl dynamic ↦ rw dynamic (take-memcpy r.remote_sa source)
  | inr fixed ↦ rw fixed
]

note_source-fields :
    (r : Relay) (source : List ℕ)
    → ((note_source r source).recv_size ≡ r.recv_size)
      × ((note_source r source).recv_buffer ≡ r.recv_buffer)
unfolding note_source
note_source-fields r source =
    if-both (λ (x : Relay). (x.recv_size ≡ r.recv_size) × (x.recv_buffer ≡ r.recv_buffer))
      r.dynamic_out_addr _ r (refl, refl) (refl, refl)

receive-buffer :
    (r : Relay) (payload : List ℕ)
    → r.recv_size ≡ length payload
    → 0 < length payload
    → take (length payload) (bytes r.recv_buffer) ≡ payload
    → (relay_receive r).0 ≡ (length payload, payload)
unfolding relay_receive
receive-buffer r payload e some_bytes shown = rw (e, not_zero (length payload) some_bytes, shown)

alloc_recv-fields :
    (r : Relay)
    → ((alloc_recv r).dynamic_out_addr ≡ r.dynamic_out_addr) × (dest (alloc_recv r) ≡ dest r)
unfolding alloc_recv
alloc_recv-fields r = ground arith

read_result-datagram :
    (r : Relay) (payload source : List ℕ)
    → 0 < length payload
    → let (ret, r') = read_result r (datagram payload source) in
      (ret ≡ pos 0)
      × ((relay_receive r').0 ≡ (length payload, payload))
      × (dest r' ≡ (if r.dynamic_out_addr then source else dest r))
unfolding read_result
read_result-datagram r payload source some_bytes =
    let r' = record r {
      recv_buffer = some (memcpy (bytes r.recv_buffer) payload (length payload));
      recv_size = length payload;
    } in
    let (same_size, same_buffer) = note_source-fields r' source in
    rw (not_zero (length payload) some_bytes) (
      refl,
      receive-buffer (note_source r' source) payload same_size some_bytes
          (rw same_buffer (take-memcpy (bytes r.recv_buffer) payload)),
      note_source-dest r' source,
    )

read_event-ready :
    (r : Relay) (rfds : FdSet) (k : Kernel)
    → (rfds r.fd && (r.recv_size == 0)) ≡ true
    → (read_event r rfds k).0 ≡ read_result (alloc_recv r) (cut buf_sz (k.recv_answer k.recvs))
unfolding read_event recvfrom
read_event-ready r rfds k ready = rw ready

same_dest :
    (r : Relay) (source : List ℕ)
    → (if (alloc_recv r).dynamic_out_addr then source else dest (alloc_recv r))
      ≡ (if r.dynamic_out_addr then source else dest r)
same_dest r source = let (same_dynamic, same) = alloc_recv-fields r in rw (same_dynamic, same)

-- When the descriptor is ready, nothing is held and a non-empty datagram of at most `buf_sz` bytes
-- arrives, a read event answers 0, relay_receive then hands out exactly these bytes, and a relay
-- without an address of its own now answers to their source; any other keeps its peer.
pub read_event-datagram :
    (r : Relay) (rfds : FdSet) (k : Kernel) (payload source : List ℕ)
    → rfds r.fd ≡ true
    → r.recv_size ≡ 0
    → k.recv_answer k.recvs ≡ datagram payload source
    → 0 < length payload
    → length payload ≤ buf_sz
    → let (ret, r') = (read_event r rfds k).0 in
      (ret ≡ pos 0)
      × ((relay_receive r').0 ≡ (length payload, payload))
      × (dest r' ≡ (if r.dynamic_out_addr then source else dest r))
read_event-datagram r rfds k payload source ready idle arrival some_bytes fits =
    let (ok, shown, to) = read_result-datagram (alloc_recv r) payload source some_bytes in
    rw (read_event-ready r rfds k (rw ready (rw idle refl)))
      (rw (arrival, take_of_length-le buf_sz payload fits) (ok, shown, to ∙ same_dest r source))
