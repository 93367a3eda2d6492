-- ===== src/Setup/Create.antt =====
-- new_relay: it returns with a relay, whose descriptor is the only one that it leaves open, or with
-- `NULL` and none.
use udprelayd.Base.{ℕ, ◌+◌, ◌≡◌, Bool, not, Option, none, some, List, [], ◌∷◌, arith}
use udprelayd.Config.{RelayConfig, is_set}
use udprelayd.Relay.{Relay}
use udprelayd.Net.{AddrInfo, Cmd, pure, Sys, socket, setsockopt, bind, getaddrinfo, freeaddrinfo}
use udprelayd.Setup.{
  Choice, chosen, no_choice, gave_up, choose, bind_socket, with_socket, first_address, new_or_close,
  with_addresses, first_query, second_query, resolve_remote, remote_address, finish, make_relay,
  new_relay, host_service, no_port,
}
use udprelayd.Setup.Counts.{
  opened_count, closed_count, occurrences, occurrences-nil, Owns, Owns-pure, Owns-bind,
  Owns-getaddrinfo, Owns-freeaddrinfo, opened_fd, Owns-socket, Owns-setsockopt, Owns-bind_call,
  Owns-if, Owns-close_then,
}

abbrev choice_fds : Choice → List ℕ
choice_fds (chosen fd ai) = fd ∷ []
choice_fds no_choice = []
choice_fds gave_up = []

abbrev pub relay_fds : Option Relay → List ℕ
relay_fds none = []
relay_fds (some r) = r.fd ∷ []

bind_socket-Owns :
    (fd : ℕ) (r : AddrInfo) (next : Cmd Choice)
    → Owns [] next choice_fds
    → Owns (fd ∷ []) (bind_socket fd r next) choice_fds
unfolding bind_socket
bind_socket-Owns fd r next h =
    Owns-bind (fd ∷ []) (setsockopt fd) (λ ok. fd ∷ []) _ choice_fds (Owns-setsockopt fd (fd ∷ []))
      (λ ok.
        Owns-if (not ok) (fd ∷ []) _ _ choice_fds
          (Owns-close_then fd [] (pure gave_up) choice_fds (Owns-pure gave_up choice_fds))
          (Owns-bind (fd ∷ []) (bind fd r) (λ ok. fd ∷ []) _ choice_fds
            (Owns-bind_call fd r (fd ∷ []))
            (λ bound.
              Owns-if bound (fd ∷ []) _ _ choice_fds (Owns-pure (chosen fd r) choice_fds)
                (Owns-close_then fd [] next choice_fds h))))

with_socket-Owns :
    (local : Bool) (r : AddrInfo) (next : Cmd Choice) (answer : Option ℕ)
    → Owns [] next choice_fds
    → Owns (opened_fd answer) (with_socket local r next answer) choice_fds
unfolding with_socket
with_socket-Owns local r next none h = h
with_socket-Owns local r next (some fd) h =
    Owns-if (not local) (fd ∷ []) _ _ choice_fds (Owns-pure (chosen fd r) choice_fds)
      (bind_socket-Owns fd r next h)

choose-Owns : (local : Bool) (rs : List AddrInfo) → Owns [] (choose local rs) choice_fds
unfolding choose
choose-Owns local [] = Owns-pure no_choice choice_fds
choose-Owns local (r ∷ rs) =
    Owns-bind [] (socket r) opened_fd _ choice_fds (Owns-socket r)
      (λ answer. with_socket-Owns local r (choose local rs) answer (choose-Owns local rs))

first_address-Owns :
    (p : List ℕ) (res : Option (AddrInfo × List AddrInfo)) → Owns p (first_address res) (λ a. p)
unfolding first_address
first_address-Owns p none = Owns-pure none (λ a. p)
first_address-Owns p (some (first, rest)) =
    Owns-bind p freeaddrinfo (λ u. p) _ (λ a. p) (Owns-freeaddrinfo p)
      (λ u. Owns-pure (some first.addr) (λ a. p))

remote_address-Owns :
    (p : List ℕ) (local : Bool) (remote : Option (List ℕ × Option (List ℕ))) (ai : AddrInfo)
    → Owns p (remote_address local remote ai) (λ a. p)
unfolding remote_address resolve_remote
remote_address-Owns p local none ai =
    Owns-if (not local) p _ _ (λ a. p) (Owns-pure (some ai.addr) (λ a. p))
      (Owns-pure (some []) (λ a. p))
remote_address-Owns p local (some remote) ai =
    Owns-if (not local) p _ _ (λ a. p) (Owns-pure (some ai.addr) (λ a. p))
      (Owns-bind p (getaddrinfo (second_query remote ai)) (λ res. p) _ (λ a. p)
        (Owns-getaddrinfo (second_query remote ai) p) (first_address-Owns p))

new_or_close-Owns :
    (config : RelayConfig) (fd : ℕ) (sa : Option (List ℕ))
    → Owns (fd ∷ []) (new_or_close config fd sa) relay_fds
unfolding new_or_close make_relay
new_or_close-Owns config fd none =
    Owns-close_then fd [] (pure none) relay_fds (Owns-pure none relay_fds)
new_or_close-Owns config fd (some sa) = Owns-pure (some (make_relay config fd sa)) relay_fds

finish-Owns :
    (config : RelayConfig) (choice : Choice)
    → Owns (choice_fds choice) (finish config choice) relay_fds
unfolding finish
finish-Owns config gave_up = Owns-pure none relay_fds
finish-Owns config no_choice =
    Owns-bind [] freeaddrinfo (λ u. []) _ relay_fds (Owns-freeaddrinfo [])
      (λ u. Owns-pure none relay_fds)
finish-Owns config (chosen fd ai) =
    let remote = host_service config.remote_addr in
    let local = is_set config.local_addr in
    let own = fd ∷ [] in
    Owns-bind own freeaddrinfo (λ u. own) _ relay_fds (Owns-freeaddrinfo own)
      (λ u.
        Owns-bind own (remote_address local remote ai) (λ a. own) _ relay_fds
          (remote_address-Owns own local remote ai) (new_or_close-Owns config fd))

with_addresses-Owns :
    (config : RelayConfig) (res : Option (AddrInfo × List AddrInfo))
    → Owns [] (with_addresses config res) relay_fds
unfolding with_addresses
with_addresses-Owns config none = Owns-pure none relay_fds
with_addresses-Owns config (some (first, rest)) =
    Owns-bind [] (choose (is_set config.local_addr) (first ∷ rest)) choice_fds _ relay_fds
      (choose-Owns (is_set config.local_addr) (first ∷ rest)) (finish-Owns config)

pub new_relay-Owns : (config : RelayConfig) → Owns [] (new_relay config) relay_fds
unfolding new_relay
new_relay-Owns config =
    let q = first_query (host_service config.local_addr) (host_service config.remote_addr) in
    Owns-if (no_port (host_service config.remote_addr)) [] _ _ relay_fds (Owns-pure none relay_fds)
      (Owns-bind [] (getaddrinfo q) (λ res. []) _ relay_fds (Owns-getaddrinfo q [])
        (with_addresses-Owns config))

-- Whatever the resolver and the socket calls answer, new_relay opens and closes each descriptor as
-- often, but for the relay's when it returns a relay: this one stays open, and after `NULL` none.
pub new_relay-fds :
    (config : RelayConfig) (s : Sys) (fd : ℕ)
    → let (r, s') = new_relay config s in
      opened_count fd s'.log + closed_count fd s.log
      ≡ opened_count fd s.log + closed_count fd s'.log + occurrences fd (relay_fds r)
unfolding Owns
new_relay-fds config s fd = omega (arith, new_relay-Owns config s fd, occurrences-nil fd)
