-- ===== src/Relay.antt =====
-- relay.c: one socket with its send queue, its send buffer and its receive buffer.
-- A buffer is the bytes written to it so far; `malloc` never fails. A `queue_t` is the contents
-- of its buffer, and the circular list of them a list (see Clist).
pub mod Invariant
pub mod Fifo
pub mod Writes
pub mod Runs
pub mod Datagrams
pub mod Answers
mod Tests
use udprelayd.Base.{
  ℕ, ◌+◌, ◌/◌, Bool, true, false, not, ◌&&◌, ◌||◌, Option, none, some, List, [], ◌∷◌, ◌++◌, ◌==◌,
  ltb, if◌then◌else◌, length, take, drop,
}
use udprelayd.Base.Int.{ℤ, pos, negsuc}
use udprelayd.Os.{
  Errno, is_eagain, is_unreachable, is_emsgsize, Ssize, size, failed, Arrival, datagram, nothing,
  Cmd, pure, ◌>>=◌, ◌>>◌, memcpy, sendto, recvfrom, close,
}

abbrev pub buf_sz : ℕ
buf_sz = 65536

pub record Relay : Type 0 where
  pub fd : ℕ
  pub remote_sa : List ℕ
  pub remote_sa_len : ℕ
  -- update `remote_sa` on every incoming packet with its source address
  pub dynamic_out_addr : Bool
  pub local_addr : Option (List ℕ)
  pub remote_addr : Option (List ℕ)
  pub queue : List (List ℕ)
  -- reusable buffer for the first item of the queue
  pub send_buffer : Option (List ℕ)
  pub send_buffer_size : ℕ
  pub send_size : ℕ
  pub recv_buffer : Option (List ℕ)
  pub recv_size : ℕ

-- a pointer test, and what a pointer that is not `NULL` leads to
abbrev pub is_null : Option (List ℕ) → Bool
is_null none = true
is_null (some b) = false

abbrev pub bytes : Option (List ℕ) → List ℕ
bytes none = []
bytes (some b) = b

abbrev pub is_empty : List (List ℕ) → Bool
is_empty [] = true
is_empty (q ∷ qs) = false

-- `&relay->remote_sa.sa, relay->remote_sa_len`
abbrev pub dest : Relay → List ℕ
dest r = take r.remote_sa_len r.remote_sa

unfoldable pub relay_queued : Relay → Bool
relay_queued r = not (is_empty r.queue) || not (r.send_size == 0)

-- A set of descriptors.
abbrev pub FdSet : Type 0
FdSet = ℕ → Bool

abbrev pub fd_add : ℕ → FdSet → FdSet
fd_add fd s n = (n == fd) || s n

unfoldable pub relay_fd_set : Relay → FdSet → FdSet → FdSet × FdSet
relay_fd_set r rfds wfds = (
  if r.recv_size == 0 then fd_add r.fd rfds else rfds,
  if relay_queued r then fd_add r.fd wfds else wfds,
)

-- the `else` part of relay_enqueue: room in the send buffer
unfoldable pub reserve : Relay → ℕ → Relay
reserve r length =
    if is_null r.send_buffer
    then record r { send_buffer_size = length; send_buffer = some [] }
    else if ltb r.send_buffer_size length
    then record r { send_buffer_size = length + length / 2; send_buffer = some [] }
    else r

-- the branch without a queue: the datagram goes to the send buffer
unfoldable pub keep_first : Relay → List ℕ → Relay
keep_first r buffer =
    let r' = reserve r (length buffer) in
    record r' {
      send_buffer = some (memcpy (bytes r'.send_buffer) buffer (length buffer));
      send_size = length buffer;
    }

-- Add to queue.
unfoldable pub hold : Relay → List ℕ → Relay
hold r buffer =
    if relay_queued r then record r { queue = r.queue ++ buffer ∷ [] } else keep_first r buffer

-- What relay_enqueue does with the result of `sendto`.
unfoldable pub enqueue_result : Relay → List ℕ → Ssize → ℤ × Relay
enqueue_result r buffer (size n) = if n == 0 then (negsuc 0, r) else (pos 0, r)
enqueue_result r buffer (failed e) =
    if is_emsgsize e || is_unreachable e
    then (pos 0, r)
    else if not (is_eagain e)
    then (negsuc 0, r)
    else (pos 0, hold r buffer)

unfoldable pub relay_enqueue : Relay → List ℕ → Cmd (ℤ × Relay)
relay_enqueue r buffer =
    if r.remote_sa_len == 0
    then pure (pos 0, r)
    else (do sz ← sendto r.fd buffer (dest r); pure (enqueue_result r buffer sz))

-- The size, and the bytes that the pointer to the internal buffer shows.
unfoldable pub relay_receive : Relay → (ℕ × List ℕ) × Relay
relay_receive r =
    if r.recv_size == 0
    then ((0, []), r)
    else ((r.recv_size, take r.recv_size (bytes r.recv_buffer)), record r { recv_size = 0 })

-- Update out address.
unfoldable pub note_source : Relay → List ℕ → Relay
note_source r source =
    if r.dynamic_out_addr
    then record r {
      remote_sa = memcpy r.remote_sa source (length source);
      remote_sa_len = length source;
    }
    else r

-- What relay_handle does with the result of `recvfrom`.
unfoldable pub read_result : Relay → Arrival → ℤ × Relay
read_result r (nothing e) = if is_eagain e || is_unreachable e then (pos 0, r) else (negsuc 0, r)
read_result r (datagram payload source) = if length payload == 0 then (negsuc 0, r) else (
  pos 0,
  note_source
      (record r {
        recv_buffer = some (memcpy (bytes r.recv_buffer) payload (length payload));
        recv_size = length payload;
      })
      source,
)

-- the receive buffer, allocated at the first read
unfoldable pub alloc_recv : Relay → Relay
alloc_recv r = if is_null r.recv_buffer then record r { recv_buffer = some [] } else r

-- Read event.
unfoldable pub read_event : Relay → FdSet → Cmd (ℤ × Relay)
read_event r rfds =
    if rfds r.fd && (r.recv_size == 0)
    then (do arrival ← recvfrom r.fd buf_sz; pure (read_result (alloc_recv r) arrival))
    else pure (pos 0, r)

-- The tests of a write event's result: the datagram is done with, it stays, or an error.
pub data Verdict : Type 0 where
  gone stays broken : Verdict

unfoldable pub write_verdict : Ssize → Verdict
write_verdict (size n) = if n == 0 then broken else gone
write_verdict (failed e) =
    if is_eagain e || (is_emsgsize e || is_unreachable e)
    then (if not (is_eagain e) then gone else stays)
    else broken

unfoldable pub buffer_result : Relay → Verdict → ℤ × Relay
buffer_result r gone = (pos 0, record r { send_size = 0 })
buffer_result r stays = (pos 0, r)
buffer_result r broken = (negsuc 0, r)

unfoldable pub queue_result : Relay → List (List ℕ) → Verdict → ℤ × Relay
queue_result r rest gone = (pos 0, record r { queue = rest })
queue_result r rest stays = (pos 0, r)
queue_result r rest broken = (negsuc 0, r)

-- the head of the queue, where there is one
unfoldable pub write_queue : Relay → List (List ℕ) → Cmd (ℤ × Relay)
write_queue r [] = pure (pos 0, r)
write_queue r (item ∷ rest) = do
  sz ← sendto r.fd item (dest r)
  pure (queue_result r rest (write_verdict sz))

-- Write event.
unfoldable pub write_event : Relay → FdSet → Cmd (ℤ × Relay)
write_event r wfds =
    if wfds r.fd
    then (if r.send_size == 0 then write_queue r r.queue else (do
      sz ← sendto r.fd (take r.send_size (bytes r.send_buffer)) (dest r)
      pure (buffer_result r (write_verdict sz))))
    else pure (pos 0, r)

abbrev pub is_neg : ℤ → Bool
is_neg (pos n) = false
is_neg (negsuc n) = true

unfoldable pub relay_handle : Relay → FdSet → FdSet → Cmd (ℤ × Relay)
relay_handle r rfds wfds = do
  (ret, r) ← read_event r rfds
  if is_neg ret then pure (ret, r) else write_event r wfds

-- The descriptor is closed, and the memory given back.
unfoldable pub free_relay : Relay → Cmd (Unit {0})
free_relay r = close r.fd

-- The address in a `struct sockaddr_in6`, and in a `struct sockaddr_in`.
abbrev pub sin6_addr : List ℕ → List ℕ
sin6_addr sa = take 16 (drop 8 sa)

abbrev pub sin_addr : List ℕ → List ℕ
sin_addr sa = take 4 (drop 4 sa)

-- The C library's reading of `sa_family`, and its `inet_ntop`; `AF_INET` is 2, `AF_INET6` is 10.
module _ (sa_family : List ℕ → ℕ) (inet_ntop : ℕ → List ℕ → List ℕ) where
  unfoldable pub relay_remote_sa : Relay → List ℕ
  relay_remote_sa r =
      if sa_family r.remote_sa == 10
      then inet_ntop 10 (sin6_addr r.remote_sa)
      else inet_ntop 2 (sin_addr r.remote_sa)
