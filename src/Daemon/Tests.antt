-- ===== src/Daemon/Tests.antt =====
-- udprelayd.c: a small daemon, and the theorems at it.
use udprelayd.Base.{
  ℕ, ◌+◌, ◌==◌, if◌then◌else◌, false, not, ltb, ◌&&◌, ◌||◌, ◌≡◌, refl, true, false, some, none,
  List, [], ◌∷◌, ◌++◌, arith, last_n, has, length, ◌≤◌,
}
use udprelayd.Base.Int.{pos}
use udprelayd.Os.{Kernel, Ssize, size, failed, other, datagram}
use udprelayd.Lookup.{Lookup, new_lookup, lookup_push}
use udprelayd.Lookup.Push.{lookup_push-fresh}
use udprelayd.Lookup.ListTree.{list_tree}
use udprelayd.Lookup.Window.{window}
use udprelayd.Lookup.Window
use udprelayd.Lookup.Runs.{dedup, new_lookup-IsValid}
use udprelayd.Relay.{Relay, relay_receive}
use udprelayd.Relay.Answers.{hard}
use udprelayd.Daemon.{Udprelay, htons, dispatch_inbound, fd_sets, nfds}
use udprelayd.Daemon.Select.{reads, writes, fd_sets-waits}
use udprelayd.Daemon.Sends.{offers}
use udprelayd.Descriptors.{closes}
use udprelayd.Daemon.Inbound.{Forwarded, offers_to, dispatch_inbound-soft, dispatch_inbound-hard}
use udprelayd.Daemon.Relayed.{Packet, accepted, seqs, offers_of, dispatch_all}
use udprelayd.Relay.Fifo.{pending}
use udprelayd.Relay.Writes.{answered}
use udprelayd.Relay.Runs.{Op, enqueue, handle, run}
use udprelayd.Daemon.Drains.{Willing, chances, run-drains}
use udprelayd.Daemon.Loop.{relayed_one}
use udprelayd.Daemon.Deliver.{dispatch_all-offers, relayed_one-empty}

-- A socket bound to one peer.
abbrev socket : ℕ → Relay
socket fd = record {
  fd = fd;
  remote_sa = fd ∷ 1 ∷ [];
  remote_sa_len = 2;
  dynamic_out_addr = false;
  local_addr = none;
  remote_addr = some [];
  queue = [];
  send_buffer = none;
  send_buffer_size = 0;
  send_size = 0;
  recv_buffer = none;
  recv_size = 0;
}

-- Two relays, and a window for four numbers.
abbrev daemon : Udprelay (List ℕ)
daemon = record {
  outward = socket 3;
  relays = socket 4 ∷ socket 5 ∷ [];
  lookup = new_lookup list_tree (pos 4);
  relays_num = 2;
  seq = 65535;
}

-- Every `sendto` has the same answer.
abbrev answering : Ssize → Kernel
answering sz = record {
  send_answer = λ n. sz;
  recv_answer = λ n. datagram [] [];
  sends = 0;
  recvs = 0;
  log = [];
}

empty : window daemon.lookup ≡ []
empty = (new_lookup-IsValid list_tree 4).1

lookup-IsValid : Window.IsValid list_tree 4 daemon.lookup
lookup-IsValid = (new_lookup-IsValid list_tree 4).0

soft : (n : ℕ) → hard ((answering (size 9)).send_answer n) ≡ false
unfolding hard
soft n = refl

broken_down : (n : ℕ) → hard ((answering (failed other)).send_answer n) ≡ true
unfolding hard
broken_down n = refl

dispatch_inbound-soft_example :
    (u' : Udprelay (List ℕ)) × (k' : Kernel) × (dispatch_inbound daemon
        (70 ∷ 71 ∷ [])
        (answering (size 9))
      ≡ some ((pos 0, u'), k'))
    × Forwarded daemon u'
    × (offers k'.log
        ≡ offers (answering (size 9)).log ++ offers_to daemon.relays (htons 65535 ++ 70 ∷ 71 ∷ []))
dispatch_inbound-soft_example =
    dispatch_inbound-soft daemon (70 ∷ 71 ∷ []) (answering (size 9)) soft (omega arith)

dispatch_inbound-hard_example : dispatch_inbound daemon (70 ∷ []) (answering (failed other)) ≡ none
dispatch_inbound-hard_example =
    dispatch_inbound-hard daemon (70 ∷ []) (answering (failed other)) broken_down (refl, (refl, tt))

-- Two copies of one packet, and another.
abbrev packets : List Packet
packets = (7, 1 ∷ []) ∷ (7, 1 ∷ []) ∷ (8, 2 ∷ []) ∷ []

packets-accepted : accepted packets (dedup 4 [] (seqs packets)).0 ≡ (1 ∷ []) ∷ (2 ∷ []) ∷ []
unfolding accepted dedup last_n
packets-accepted = refl

dispatch_all-offers_example :
    (u' : Udprelay (List ℕ)) × (k' : Kernel) × (dispatch_all list_tree daemon packets
        (answering (size 9))
      ≡ some (u', k'))
    × (offers k'.log
        ≡ offers (answering (size 9)).log
          ++ offers_of (socket 3) (accepted packets (dedup 4 [] (seqs packets)).0))
dispatch_all-offers_example =
    dispatch_all-offers list_tree 4 (omega arith) packets daemon (answering (size 9)) lookup-IsValid
      empty

fresh_seven : has 7 (window daemon.lookup) ≡ false
fresh_seven = rw empty

-- The lookup after the number 7 has been taken.
seven_pushed :
    (lookup : Lookup (List ℕ)) × (lookup_push list_tree daemon.lookup 7 ≡ some (lookup, true))
    × Window.IsValid list_tree 4 lookup
    × (window lookup ≡ last_n 4 (window daemon.lookup ++ 7 ∷ []))
seven_pushed =
    lookup_push-fresh list_tree 4 daemon.lookup lookup-IsValid 7 (omega arith) fresh_seven

seven_seen : has 7 (window seven_pushed.0) ≡ true
unfolding last_n
seven_seen = rw (seven_pushed.3, empty)

abbrev after_seven : Udprelay (List ℕ)
after_seven = record daemon { lookup = seven_pushed.0 }

-- A relay that has received the two bytes of the number 7.
abbrev short : Relay
short = record (socket 4) { recv_buffer = some (htons 7 ++ []); recv_size = 2 }

relayed_one-empty_example :
    (u' : Udprelay (List ℕ)) × (k' : Kernel) × (relayed_one list_tree daemon short
        (answering (size 0))
      ≡ some ((none, u'), k'))
    × (u'.relays_num ≡ 1)
    × ((fd : ℕ)
        → closes fd k'.log ≡ closes fd (answering (size 0)).log + (if fd == 4 then 1 else 0))
unfolding relay_receive htons
relayed_one-empty_example =
    relayed_one-empty list_tree 4 (omega arith) daemon short 7 (answering (size 0)) lookup-IsValid
      fresh_seven refl refl refl

fd_sets-waits_example :
    let (rfds, wfds) = fd_sets daemon in
    (rfds 4 ≡ reads 4 (daemon.outward ∷ daemon.relays))
    × (wfds 4 ≡ writes 4 (daemon.outward ∷ daemon.relays))
    × (((rfds 4 || wfds 4) && not (ltb 4 (nfds daemon))) ≡ false)
fd_sets-waits_example = fd_sets-waits daemon 4

-- A datagram in the send buffer, and one in the queue.
abbrev loaded : Relay
loaded = record (socket 4) {
  queue = (3 ∷ []) ∷ [];
  send_buffer = some (1 ∷ 2 ∷ []);
  send_buffer_size = 2;
  send_size = 2;
}

abbrev willing : Kernel
willing = record (answering (size 2)) { recv_answer = λ n. datagram (5 ∷ []) [] }

willing-Willing : Willing willing
unfolding hard answered
willing-Willing = record {
  benign = record { soft = λ n. refl; good = λ n. omega arith };
  done = λ n. refl;
}

abbrev two_chances : List Op
two_chances =
    handle (λ fd. true) (λ fd. true) ∷ enqueue (7 ∷ []) ∷ handle (λ fd. false) (λ fd. true) ∷ []

enough : length (pending loaded) ≤ chances 4 two_chances
unfolding pending chances
enough = omega arith

run-drains_example : pending (run two_chances loaded willing).0 ≡ []
run-drains_example = run-drains two_chances loaded willing willing-Willing enough
