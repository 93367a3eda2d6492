-- ===== src/Relay/Tests.antt =====
-- relay.c: small runs, and the theorems at such inputs.
use udprelayd.Base.{◌≡◌, refl, true, some, none, List, [], ◌∷◌, ◌++◌, arith, ◌==◌, if◌then◌else◌}
use udprelayd.Base.Int.{pos}
use udprelayd.Os.{Kernel, size, failed, eagain, datagram}
use udprelayd.Relay.{Relay, FdSet, dest, relay_receive, relay_handle, read_event, write_event}
use udprelayd.Relay.Fifo.{pending}
use udprelayd.Relay.Writes.{seen, offer, write_event-offer}
use udprelayd.Relay.Runs.{Op, enqueue, handle, run, all_held, all_served, run-fifo}
use udprelayd.Relay.Invariant.{IsValid, relay_handle-IsValid}
use udprelayd.Relay.Datagrams.{read_event-datagram}

-- A kernel with no room at first, and then with room; one datagram of three bytes arrives.
abbrev busy : Kernel
busy = record {
  send_answer = λ n. if n == 0 then failed eagain else if n == 1 then failed eagain else size 3;
  recv_answer = λ n. if n == 0 then datagram (5 ∷ 6 ∷ 7 ∷ []) (9 ∷ 9 ∷ []) else datagram [] [];
  sends = 0;
  recvs = 0;
  log = [];
}

-- A relay that answers to the source of the last datagram, and has one.
abbrev dynamic : Relay
dynamic = record {
  fd = 4;
  remote_sa = 8 ∷ 8 ∷ 8 ∷ [];
  remote_sa_len = 3;
  dynamic_out_addr = true;
  local_addr = some [];
  remote_addr = none;
  queue = [];
  send_buffer = none;
  send_buffer_size = 0;
  send_size = 0;
  recv_buffer = none;
  recv_size = 0;
}

-- The same with a datagram that waits in the send buffer.
abbrev loaded : Relay
loaded = record dynamic { send_buffer = some (1 ∷ 2 ∷ []); send_buffer_size = 2; send_size = 2 }

abbrev all_ready : FdSet
all_ready fd = true

dynamic-IsValid : IsValid dynamic
dynamic-IsValid = omega arith

loaded-IsValid : IsValid loaded
loaded-IsValid = omega arith

abbrev ops : List Op
ops = enqueue (1 ∷ []) ∷ enqueue (2 ∷ 3 ∷ []) ∷ handle all_ready all_ready ∷ []

run-fifo_example :
    all_served ops dynamic busy ++ pending (run ops dynamic busy).0
    ≡ pending dynamic ++ all_held ops dynamic busy
run-fifo_example = run-fifo ops dynamic busy (omega arith, (omega arith, tt))

write_event-offer_example :
    seen (write_event loaded all_ready busy) ≡ offer 4 (8 ∷ 8 ∷ 8 ∷ []) (pending loaded) busy
write_event-offer_example = write_event-offer loaded all_ready busy refl

relay_handle-IsValid_example : IsValid (relay_handle loaded all_ready all_ready busy).0.1
relay_handle-IsValid_example = relay_handle-IsValid loaded all_ready all_ready busy loaded-IsValid

read_event-datagram_example :
    ((read_event dynamic all_ready busy).0.0 ≡ pos 0)
    × ((relay_receive (read_event dynamic all_ready busy).0.1).0 ≡ (3, 5 ∷ 6 ∷ 7 ∷ []))
    × (dest (read_event dynamic all_ready busy).0.1 ≡ 9 ∷ 9 ∷ [])
read_event-datagram_example =
    read_event-datagram dynamic all_ready busy (5 ∷ 6 ∷ 7 ∷ []) (9 ∷ 9 ∷ []) refl refl refl
      (omega arith) (omega arith)
