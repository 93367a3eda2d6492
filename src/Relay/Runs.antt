-- ===== src/Relay/Runs.antt =====
-- relay.c: runs of relay_enqueue and relay_handle on one relay, in any order and under any
-- answers of the kernel, against a first-in first-out queue.
use udprelayd.Base.{
  ℕ, ◌<◌, ◌≡◌, refl, ◌∙◌, ap, sym, List, [], ◌∷◌, ◌++◌, append_assoc, append-nil, if◌then◌else◌,
  length, Bool-cases, inl, inr,
}
use udprelayd.Os.{Cmd, pure, ◌>>=◌, Kernel, sendto}
use udprelayd.Relay.{
  Relay, FdSet, dest, relay_enqueue, read_event, Verdict, gone, stays, broken, write_event, is_neg,
  relay_handle,
}
use udprelayd.Relay.Fifo.{pending, held, relay_enqueue-pending}
use udprelayd.Relay.Writes.{
  settle, answered, offer, write_event-idle, write_event-offer, read_event-SameQueue,
}

-- The datagram that a write event's verdict takes from the queue.
unfoldable pub taken : Verdict → List (List ℕ) → List (List ℕ)
taken gone (d ∷ ds) = d ∷ []
taken _ _ = []

-- The datagrams that a call of relay_handle takes from the queue: none if its read part fails
-- or its descriptor is not ready to write, and else the first if the kernel is done with it.
unfoldable pub served : Relay → FdSet → FdSet → Kernel → List (List ℕ)
served r rfds wfds k =
    let ((ret, r'), k') = read_event r rfds k in
    if is_neg ret
    then []
    else if wfds r'.fd
    then taken (answered (k'.send_answer k'.sends)) (pending r')
    else []

taken-settle : (v : Verdict) (q : List (List ℕ)) → taken v q ++ (settle v q).1 ≡ q
unfolding taken settle
taken-settle gone [] = refl
taken-settle gone (d ∷ ds) = refl
taken-settle stays [] = refl
taken-settle stays (d ∷ ds) = refl
taken-settle broken [] = refl
taken-settle broken (d ∷ ds) = refl

taken-offer :
    (fd : ℕ) (to : List ℕ) (q : List (List ℕ)) (k : Kernel)
    → taken (answered (k.send_answer k.sends)) q ++ (offer fd to q k).0.1 ≡ q
unfolding offer sendto settle
taken-offer fd to [] k = taken-settle (answered (k.send_answer k.sends)) []
taken-offer fd to (d ∷ ds) k = taken-settle (answered (k.send_answer k.sends)) (d ∷ ds)

write_event-taken :
    (r : Relay) (wfds : FdSet) (k : Kernel)
    → (if wfds r.fd then taken (answered (k.send_answer k.sends)) (pending r) else [])
        ++ pending (write_event r wfds k).0.1
      ≡ pending r
write_event-taken r wfds k = elim (Bool-cases (wfds r.fd)) [
  | inl ready ↦
      let e : pending (write_event r wfds k).0.1 ≡ (offer r.fd (dest r) (pending r) k).0.1 =
        ap (λ x. x.0.1) (write_event-offer r wfds k ready) in
      rw (ready, e) (taken-offer r.fd (dest r) (pending r) k)
  | inr idle ↦ rw (idle, write_event-idle r wfds k idle) refl
]

-- relay_handle takes from the front what it serves, and nothing else.
pub relay_handle-pending :
    (r : Relay) (rfds wfds : FdSet) (k : Kernel)
    → served r rfds wfds k ++ pending (relay_handle r rfds wfds k).0.1 ≡ pending r
unfolding served relay_handle
relay_handle-pending r rfds wfds k =
    let same = read_event-SameQueue r rfds k in
    let (res, k') = read_event r rfds k in
    elim (Bool-cases (is_neg res.0)) [
      | inl bad ↦ rw bad same.same_pending
      | inr fine ↦ rw fine (write_event-taken res.1 wfds k' ∙ same.same_pending)
    ]

pub data Op : Type 0 where
  enqueue : List ℕ → Op
  handle : FdSet → FdSet → Op

-- The relay after the calls, whatever each of them returns.
unfoldable pub run : List Op → Relay → Cmd Relay
run [] r = pure r
run (enqueue buffer ∷ ops) r = do res ← relay_enqueue r buffer; run ops res.1
run (handle rfds wfds ∷ ops) r = do res ← relay_handle r rfds wfds; run ops res.1

-- All that the calls hold back, and all that they serve, in order.
unfoldable pub all_held : List Op → Relay → Kernel → List (List ℕ)
all_held [] r k = []
all_held (enqueue buffer ∷ ops) r k =
    let (res, k') = relay_enqueue r buffer k in held r buffer k ++ all_held ops res.1 k'
all_held (handle rfds wfds ∷ ops) r k =
    let (res, k') = relay_handle r rfds wfds k in all_held ops res.1 k'

unfoldable pub all_served : List Op → Relay → Kernel → List (List ℕ)
all_served [] r k = []
all_served (enqueue buffer ∷ ops) r k =
    let (res, k') = relay_enqueue r buffer k in all_served ops res.1 k'
all_served (handle rfds wfds ∷ ops) r k =
    let (res, k') = relay_handle r rfds wfds k in served r rfds wfds k ++ all_served ops res.1 k'

abbrev pub NoEmpty : List Op → Type 0
NoEmpty [] = Unit
NoEmpty (enqueue buffer ∷ ops) = (0 < length buffer) × NoEmpty ops
NoEmpty (handle rfds wfds ∷ ops) = NoEmpty ops

-- Over any run of relay_enqueue and relay_handle in which no datagram enqueued is empty, what is
-- served and then what still waits is what waited and then what was held, in the same order:
-- nothing held is lost, repeated or reordered.
pub run-fifo :
    (ops : List Op) (r : Relay) (k : Kernel)
    → NoEmpty ops
    → all_served ops r k ++ pending (run ops r k).0 ≡ pending r ++ all_held ops r k
unfolding run all_held all_served
run-fifo [] r k h = sym (append-nil (pending r))
run-fifo (enqueue buffer ∷ ops) r k h =
    let (res, k') = relay_enqueue r buffer k in
    run-fifo ops res.1 k' h.1
    ∙ ap (λ q. q ++ all_held ops res.1 k') (relay_enqueue-pending r buffer k h.0)
    ∙ append_assoc (pending r) (held r buffer k) (all_held ops res.1 k')
run-fifo (handle rfds wfds ∷ ops) r k h =
    let (res, k') = relay_handle r rfds wfds k in
    let now = served r rfds wfds k in
    append_assoc now (all_served ops res.1 k') (pending (run ops res.1 k').0)
    ∙ ap (λ q. now ++ q) (run-fifo ops res.1 k' h)
    ∙ sym (append_assoc now (pending res.1) (all_held ops res.1 k'))
    ∙ ap (λ q. q ++ all_held ops res.1 k') (relay_handle-pending r rfds wfds k)
