-- ===== src/Program/Tests.antt =====
-- The main loop and the whole program with one relay, on a kernel that has an endless supply of one
-- packet.
use udprelayd.Base.{
  ◌++◌, ℕ, ◌+◌, ◌≡◌, refl, arith, Bool, true, false, none, some, Option, List, [], ◌∷◌,
}
use udprelayd.Base.Int.{pos}
use udprelayd.Os.{Kernel, size, datagram, eagain}
use udprelayd.Lookup.{new_lookup}
use udprelayd.Lookup.ListTree.{list_tree}
use udprelayd.Lookup.Runs.{new_lookup-IsValid}
use udprelayd.Relay.Answers.{hard}
use udprelayd.Config.{RelayConfig, Config}
use udprelayd.Config.Total
use udprelayd.Daemon.{Udprelay}
use udprelayd.Daemon.Loop.{Selected, ready, select_failed, Step, main_loop, round, udprelay_cleanup}
use udprelayd.Daemon.Benign.{Benign}
use udprelayd.Daemon.Serving
use udprelayd.Daemon.Rounds.{AllQuiet, Continues, main_loop-Serves}
use udprelayd.Net.{◌>>=◌, getaddrinfo, socket, setsockopt, bind, pure, freeaddrinfo, Sys}
use udprelayd.Setup.{
  no_port, with_addresses, finish, choose, with_socket, bind_socket, new_or_close, remote_address,
  resolve_remote, new_relay, init_relays, start_or_stop, add_relays, add_or_stop, first_address,
  split_addr, behind, make_relay, udprelay_init,
}
use udprelayd.Setup.Results.{Sized}
use udprelayd.Program.{program-Serves}
use udprelayd.Setup.Counts.{opened_count, closed_count, occurrences}
use udprelayd.Descriptors.{closes}
use udprelayd.Descriptors.Rounds.{state_fds}
use udprelayd.Descriptors.Loop.{step_fds, main_loop-fds}
use udprelayd.Unix.{slot, Slot, other_file, Process, World, returned}
use udprelayd.Program.Detached.{launch, at_start, Left, launch-Left}
use udprelayd.Program.Main.{asked, asks_usage, Does, main, main-Does}
use udprelayd.Program.Empty.{empty-ends}
use udprelayd.Program.Signals.{Round, select, tests_read, Settled, signals-stop}
use udprelayd.Program.Stops.{exit-closes}
use udprelayd.Program.Start.{with_daemon, ending, exit_success, Flag, detach_option, pidfile_option}

abbrev kernel : Kernel
kernel = record {
  send_answer = λ n. size 9;
  recv_answer = λ n. datagram (0 ∷ 7 ∷ 65 ∷ []) (9 ∷ []);
  sends = 0;
  recvs = 0;
  log = [];
}

kernel-Benign : Benign kernel
unfolding hard
kernel-Benign = record { soft = λ n. refl; good = λ n. omega arith }

-- A round with everything ready, and one with nothing.
abbrev inputs : List (Selected × Bool)
inputs = (ready 2 (λ fd. true) (λ fd. true), false) ∷ (select_failed eagain, false) ∷ []

inputs-AllQuiet : AllQuiet inputs
inputs-AllQuiet = (refl, ((refl, refl), tt))

abbrev sys : Sys
sys = record {
  resolve = λ n q. some (record { family = 2; socktype = 2; protocol = 17; addr = 9 ∷ [] }, []);
  socket_answer = λ n. some n;
  setsockopt_answer = λ n. true;
  bind_answer = λ n. true;
  calls = 3;
  log = [];
}

sys-Sized : Sized sys
sys-Sized n q = (omega arith, tt)

abbrev outward : RelayConfig
outward = record { local_addr = some (42 ∷ 58 ∷ 53 ∷ []); remote_addr = none }

abbrev both : RelayConfig
both = record { local_addr = some (97 ∷ 58 ∷ 53 ∷ []); remote_addr = some (98 ∷ 58 ∷ 54 ∷ []) }

abbrev config : Config
config = record { outward = outward; relay_config = both ∷ []; track = pos 4 }

config-IsValid : Total.IsValid config
config-IsValid = record {
  outward_addr = refl;
  some_relay = omega arith;
  relay_addrs = ((refl, refl), tt);
}

abbrev daemon : Udprelay (List ℕ)
daemon = record {
  outward = make_relay outward 4 [];
  relays = make_relay both 8 (9 ∷ []) ∷ [];
  lookup = new_lookup list_tree (pos 4);
  relays_num = 1;
  seq = 0;
}

daemon-made : (udprelay_init list_tree (some config) sys).0 ≡ some daemon
unfolding udprelay_init init_relays start_or_stop add_relays add_or_stop first_address split_addr
    behind new_relay no_port ◌>>=◌ with_addresses getaddrinfo finish choose with_socket socket
    bind_socket setsockopt bind pure new_or_close remote_address resolve_remote freeaddrinfo
daemon-made = refl

daemon-IsValid : Serving.IsValid list_tree 4 1 daemon
unfolding make_relay
daemon-IsValid = record {
  outward_valid = omega arith;
  relays_valid = (omega arith, tt);
  number = refl;
  counted = refl;
  lookup_valid = (new_lookup-IsValid list_tree 4).0;
  seq_fits = omega arith;
}

main_loop-Serves_example :
    (step : Step (List ℕ)) × (k' : Kernel) × (main_loop list_tree inputs daemon kernel
      ≡ some (step, k'))
    × Continues list_tree 4 1 step
    × Benign k'
main_loop-Serves_example =
    main_loop-Serves list_tree 4 (omega arith) 0 inputs daemon kernel inputs-AllQuiet daemon-IsValid
      kernel-Benign

program-Serves_example :
    (step : Step (List ℕ)) × (k' : Kernel) × (main_loop list_tree inputs daemon kernel
      ≡ some (step, k'))
    × Continues list_tree 4 1 step
    × Benign k'
program-Serves_example =
    program-Serves list_tree 3 config sys daemon inputs kernel config-IsValid refl sys-Sized
      daemon-made inputs-AllQuiet kernel-Benign

served :
    (step : Step (List ℕ)) × (k' : Kernel) × (main_loop list_tree inputs daemon kernel
      ≡ some (step, k'))
    × Continues list_tree 4 1 step
    × Benign k'
served =
    main_loop-Serves list_tree 4 (omega arith) 0 inputs daemon kernel inputs-AllQuiet daemon-IsValid
      kernel-Benign

main_loop-fds_example :
    closes 8 served.1.log + occurrences 8 (step_fds list_tree served.0)
    ≡ closes 8 kernel.log + occurrences 8 (state_fds daemon)
main_loop-fds_example = main_loop-fds list_tree inputs daemon kernel served.0 served.1 served.2 8

-- Two quiet rounds, one in which a signal interrupts `select`, and one more.
abbrev calm : List Round
calm =
    record { early = 0; waiting = 0; late = 0; answer = some (ready 2 (λ fd. true) (λ fd. true)) }
    ∷ record { early = 0; waiting = 0; late = 0; answer = some (select_failed eagain) }
    ∷ []

abbrev interrupted : Round
interrupted = record { early = 0; waiting = 1; late = 0; answer = none }

-- The signal comes too early, and nothing arrives.
abbrev missed : Round
missed = record { early = 1; waiting = 0; late = 0; answer = none }

signals-stop_example :
    (k' : Kernel) × (with_daemon list_tree
        (tests_read false (calm ++ interrupted ∷ missed ∷ []))
        sys
        kernel
        (udprelay_init list_tree (some config) sys).0
      ≡ some (exit_success, k'))
    × Settled true (udprelay_init list_tree (some config) sys).1 k'
unfolding select
signals-stop_example =
    signals-stop list_tree 3 config sys daemon kernel config-IsValid refl sys-Sized daemon-made
      kernel-Benign refl refl calm interrupted (missed ∷ []) (refl, refl, (refl, (refl, refl), tt))
      (omega arith)

-- The signal that comes before `select` waits does not end the daemon.
missed-waits : tests_read false (missed ∷ []) ≡ []
unfolding tests_read select
missed-waits = refl

-- A signal at once.
abbrev signal : List (Selected × Bool)
signal = (select_failed eagain, true) ∷ []

stopped :
    with_daemon list_tree signal sys kernel (udprelay_init list_tree (some config) sys).0
    ≡ some (exit_success, (udprelay_cleanup daemon kernel).1)
unfolding with_daemon ending main_loop round
stopped = rw daemon-made refl

exit-closes_example :
    let log = (udprelay_init list_tree (some config) sys).1.log in
    opened_count 8 log ≡ closed_count 8 log + closes 8 (udprelay_cleanup daemon kernel).1.log
exit-closes_example =
    exit-closes list_tree (some config) signal sys kernel exit_success
      (udprelay_cleanup daemon kernel).1 refl refl stopped tt 8

-- A listen line and a relay line.
abbrev file : List ℕ
file =
    108 ∷ 105 ∷ 115 ∷ 116 ∷ 101 ∷ 110 ∷ 32 ∷ 97 ∷ 10 ∷ 114 ∷ 101 ∷ 108 ∷ 97 ∷ 121 ∷ 32 ∷ 108 ∷ 111
    ∷ 99 ∷ 97 ∷ 108 ∷ 32 ∷ 98 ∷ 58 ∷ 53 ∷ 32 ∷ 114 ∷ 101 ∷ 109 ∷ 111 ∷ 116 ∷ 101 ∷ 32 ∷ 99 ∷ 58 ∷ 54
    ∷ 10 ∷ []

-- A process with a terminal and two sockets.
abbrev entry : ℕ → Option Slot
entry n = some (record { file = other_file n; cloexec = false })

abbrev shell : Process
shell = record {
  fds = entry 1 ∷ entry 1 ∷ entry 1 ∷ entry 2 ∷ entry 3 ∷ [];
  env = [];
  at_root = false;
  leads_session = false;
}

abbrev world : World
world = record {
  fork_answer = λ n. true;
  forks = 0;
  pipe_answer = true;
  open_answer = true;
  fopen_answer = true;
  exec_answer = λ argv. none;
  read_fails = false;
  pipes = 0;
  contents = λ n. [];
  held = λ n. false;
  pid_files = [];
}

abbrev flags : List Flag
flags = detach_option ∷ pidfile_option (112 ∷ 0 ∷ []) ∷ []

launch-Left_example :
    let r = launch list_tree signal kernel (asked flags) (some daemon) shell world in
    let res = with_daemon list_tree signal sys (at_start kernel) (some daemon) in
    (r.0 ≡ returned res) × Left daemon 4 (record { file = other_file 3; cloexec = false }) res r.1.0
unfolding slot
launch-Left_example =
    launch-Left list_tree signal sys kernel (asked flags) daemon shell world 4
      (record { file = other_file 3; cloexec = false }) (omega arith) refl

main-Does_example :
    Does list_tree inputs sys kernel flags
      (λ name. some file)
      shell
      world
      false
      ((99 ∷ []) ∷ [])
      (main list_tree inputs sys kernel flags ((99 ∷ []) ∷ []) (λ name. some file) shell world)
unfolding asks_usage
main-Does_example =
    main-Does list_tree inputs sys kernel flags (λ name. some file) shell world ((99 ∷ []) ∷ [])
      sys-Sized

-- An empty datagram arrives.
abbrev emptied : Kernel
emptied = record kernel { recv_answer = λ n. datagram [] (9 ∷ []) }

empty-ends_example :
    (k' : Kernel) × (with_daemon list_tree
        ((ready 1 (λ fd. true) (λ fd. false), false) ∷ inputs)
        sys
        emptied
        (some daemon)
      ≡ some (exit_success, k'))
    × ((fd : ℕ) → closes fd k'.log ≡ closes fd emptied.log + occurrences fd (state_fds daemon))
unfolding make_relay
empty-ends_example =
    empty-ends list_tree 0 daemon (λ fd. true) (λ fd. false) inputs sys emptied (9 ∷ []) refl refl
      refl
