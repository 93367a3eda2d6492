-- ===== src/Setup/Tests.antt =====
-- new_relay and udprelay_init with a small resolver.
use udprelayd.Base.{ℕ, ◌+◌, ◌≡◌, refl, arith, true, false, none, some, List, [], ◌∷◌}
use udprelayd.Base.Int.{pos}
use udprelayd.Lookup.ListTree.{list_tree}
use udprelayd.Config.{RelayConfig, Config}
use udprelayd.Daemon.{Udprelay}
use udprelayd.Lookup.{new_lookup}
use udprelayd.Net.{Sys, ◌>>=◌, getaddrinfo, socket, setsockopt, bind, pure, freeaddrinfo}
use udprelayd.Setup.{
  make_relay, udprelay_init, init_relays, start_or_stop, add_relays, add_or_stop, first_address,
  split_addr, behind, new_relay, no_port, with_addresses, finish, choose, with_socket, bind_socket,
  new_or_close, remote_address, resolve_remote,
}
use udprelayd.Setup.Counts.{opened_count, closed_count, occurrences}
use udprelayd.Setup.Create.{relay_fds, new_relay-fds}
use udprelayd.Setup.Init.{daemon_fds, udprelay_init-fds}
use udprelayd.Setup.Results.{Sized}
use udprelayd.Setup.Leak.{resolved_count, released_count, unset, forgotten, new_relay-lists}
use udprelayd.Setup.Peers.{IsPeered, new_relay-IsPeered}
use udprelayd.Setup.Start.{IsStart, udprelay_init-IsStart}

-- One address for every query, a new descriptor for every call, and no failures.
abbrev sys : Sys
sys = record {
  resolve = λ n q. some (record { family = 2; socktype = 2; protocol = 17; addr = 9 ∷ [] }, []);
  socket_answer = λ n. some n;
  setsockopt_answer = λ n. true;
  bind_answer = λ n. true;
  calls = 3;
  log = [];
}

-- setsockopt fails.
abbrev broken : Sys
broken = record sys { setsockopt_answer = λ n. false }

sys-Sized : Sized sys
sys-Sized n q = (omega arith, tt)

-- `*:5`, and a local `a:5` with a remote `b:6`.
abbrev outward : RelayConfig
outward = record { local_addr = some (42 ∷ 58 ∷ 53 ∷ []); remote_addr = none }

abbrev both : RelayConfig
both = record { local_addr = some (97 ∷ 58 ∷ 53 ∷ []); remote_addr = some (98 ∷ 58 ∷ 54 ∷ []) }

abbrev config : Config
config = record { outward = outward; relay_config = both ∷ both ∷ []; track = pos 4 }

new_relay-fds_example :
    let (r, s') = new_relay both broken in
    opened_count 4 s'.log + closed_count 4 broken.log
    ≡ opened_count 4 broken.log + closed_count 4 s'.log + occurrences 4 (relay_fds r)
new_relay-fds_example = new_relay-fds both broken 4

udprelay_init-fds_example :
    let (u, s') = udprelay_init list_tree (some config) sys in
    opened_count 4 s'.log + closed_count 4 sys.log
    ≡ opened_count 4 sys.log + closed_count 4 s'.log + occurrences 4 (daemon_fds list_tree u)
udprelay_init-fds_example = udprelay_init-fds list_tree (some config) sys 4

outward-made : (new_relay outward sys).0 ≡ some (make_relay outward 4 [])
unfolding new_relay no_port ◌>>=◌ with_addresses getaddrinfo finish choose with_socket socket
    bind_socket setsockopt bind pure new_or_close remote_address resolve_remote freeaddrinfo
outward-made = refl

new_relay-IsPeered_example : IsPeered both sys (new_relay both sys)
new_relay-IsPeered_example = new_relay-IsPeered both sys

both-made : (new_relay both sys).0 ≡ some (make_relay both 4 (9 ∷ []))
unfolding new_relay no_port split_addr behind ◌>>=◌ with_addresses getaddrinfo finish choose
    with_socket socket bind_socket setsockopt bind pure new_or_close remote_address resolve_remote
    first_address freeaddrinfo
both-made = refl

-- The daemon of the configuration: descriptors 4, 8 and 13.
abbrev daemon : Udprelay (List ℕ)
daemon = record {
  outward = make_relay outward 4 [];
  relays = make_relay both 8 (9 ∷ []) ∷ make_relay both 13 (9 ∷ []) ∷ [];
  lookup = new_lookup list_tree (pos 4);
  relays_num = 2;
  seq = 0;
}

daemon-made : (udprelay_init list_tree (some config) sys).0 ≡ some daemon
unfolding udprelay_init init_relays start_or_stop add_relays add_or_stop first_address split_addr
    behind new_relay no_port ◌>>=◌ with_addresses getaddrinfo finish choose with_socket socket
    bind_socket setsockopt bind pure new_or_close remote_address resolve_remote freeaddrinfo
daemon-made = refl

udprelay_init-IsStart_example : IsStart list_tree config daemon
udprelay_init-IsStart_example =
    udprelay_init-IsStart list_tree config sys daemon sys-Sized daemon-made

new_relay-lists_example :
    let s' = (new_relay both broken).1 in
    resolved_count s'.log + released_count broken.log
    ≡ resolved_count broken.log + released_count s'.log + forgotten both broken
new_relay-lists_example = new_relay-lists both broken

-- There, one list is forgotten.
forgets : forgotten both broken ≡ 1
unfolding no_port split_addr behind unset
forgets = refl
