-- ===== src/Setup/Modes.antt =====
-- new_relay and udprelay_init: what the relays and the daemon that they return look like.
use udprelayd.Base.{
  ℕ, ◌<◌, ◌≡◌, refl, ◌∙◌, Bool, true, false, not, ◌&&◌, Option, none, some, List, [], ◌∷◌, ◌==◌,
  arith, length,
}
use udprelayd.Config.{RelayConfig, is_set}
use udprelayd.Relay.{Relay}
use udprelayd.Relay.Fifo.{pending}
use udprelayd.Relay.Invariant
use udprelayd.Net.{AddrInfo, Sys, pure, getaddrinfo, freeaddrinfo}
use udprelayd.Setup.{
  Choice, chosen, no_choice, gave_up, choose, first_query, second_query, first_address,
  resolve_remote, remote_address, new_or_close, finish, make_relay, no_port, host_service,
  with_addresses, new_relay,
}
use udprelayd.Setup.Results.{
  AnswerSized, Sized, Yields, Yields-pure, Yields-bind, Yields-if, Any, Yields-getaddrinfo,
  Yields-freeaddrinfo, Yields-close_then, ChoiceSized, choose-Yields,
}

-- The relay of a line of the configuration. It follows the source of what it receives exactly if
-- only a local address is given, and this is when it has no peer yet.
pub record IsRelayOf (config : RelayConfig) (r : Relay) : Type 0 where
  pub same_local : r.local_addr ≡ config.local_addr
  pub same_remote : r.remote_addr ≡ config.remote_addr
  pub mode : r.dynamic_out_addr ≡ (is_set config.local_addr && not (is_set config.remote_addr))
  pub no_peer : (r.remote_sa_len == 0) ≡ r.dynamic_out_addr
  pub idle : pending r ≡ []
  pub valid : Invariant.IsValid r

abbrev pub RelayOf : RelayConfig → Option Relay → Type 0
RelayOf config none = Unit
RelayOf config (some r) = IsRelayOf config r

abbrev is_given : Option (List ℕ × Option (List ℕ)) → Bool
is_given none = false
is_given (some a) = true

host_service-given : (addr : Option (List ℕ)) → is_given (host_service addr) ≡ is_set addr
host_service-given none = refl
host_service-given (some addr) = refl

-- The peer's address is empty exactly where only a local address is given.
abbrev Peer : Bool → Bool → Option (List ℕ) → Type 0
Peer local remote none = Unit
Peer local remote (some sa) = (length sa == 0) ≡ (local && not remote)

not_empty : (sa : List ℕ) → 0 < length sa → (length sa == 0) ≡ false
not_empty sa h = ground arith

first_address-Yields :
    (res : Option (AddrInfo × List AddrInfo))
    → AnswerSized res
    → Yields (Peer true true) (first_address res)
unfolding first_address
first_address-Yields none h = Yields-pure (Peer true true) none tt
first_address-Yields (some (first, rest)) h =
    Yields-bind Any (Peer true true) freeaddrinfo _ Yields-freeaddrinfo
      (λ u v. Yields-pure (Peer true true) (some first.addr) (not_empty first.addr h.0))

remote_address-Yields :
    (local : Bool) (remote : Option (List ℕ × Option (List ℕ))) (ai : AddrInfo)
    → 0 < length ai.addr
    → Yields (Peer local (is_given remote)) (remote_address local remote ai)
unfolding remote_address resolve_remote
remote_address-Yields false remote ai h =
    Yields-pure (Peer false (is_given remote)) (some ai.addr) (not_empty ai.addr h)
remote_address-Yields true none ai h = Yields-pure (Peer true false) (some []) refl
remote_address-Yields true (some remote) ai h =
    Yields-bind AnswerSized (Peer true true) (getaddrinfo (second_query remote ai)) first_address
      (Yields-getaddrinfo (second_query remote ai)) first_address-Yields

new_or_close-Yields :
    (config : RelayConfig) (fd : ℕ) (sa : Option (List ℕ))
    → Peer (is_set config.local_addr) (is_given (host_service config.remote_addr)) sa
    → Yields (RelayOf config) (new_or_close config fd sa)
unfolding new_or_close make_relay pending
new_or_close-Yields config fd none h =
    Yields-close_then (RelayOf config) fd (pure none) (Yields-pure (RelayOf config) none tt)
new_or_close-Yields config fd (some sa) h =
    Yields-pure (RelayOf config) (some (make_relay config fd sa)) (record {
      same_local = refl;
      same_remote = refl;
      mode = h ∙ rw (host_service-given config.remote_addr);
      no_peer = refl;
      idle = refl;
      valid = omega arith;
    })

finish-Yields :
    (config : RelayConfig) (choice : Choice)
    → ChoiceSized choice
    → Yields (RelayOf config) (finish config choice)
unfolding finish
finish-Yields config gave_up h = Yields-pure (RelayOf config) none tt
finish-Yields config no_choice h =
    Yields-bind Any (RelayOf config) freeaddrinfo _ Yields-freeaddrinfo
      (λ u v. Yields-pure (RelayOf config) none tt)
finish-Yields config (chosen fd ai) h =
    let remote = host_service config.remote_addr in
    let local = is_set config.local_addr in
    Yields-bind Any (RelayOf config) freeaddrinfo _ Yields-freeaddrinfo (λ u v.
      Yields-bind (Peer local (is_given remote)) (RelayOf config) (remote_address local remote ai) _
        (remote_address-Yields local remote ai h) (new_or_close-Yields config fd))

with_addresses-Yields :
    (config : RelayConfig) (res : Option (AddrInfo × List AddrInfo))
    → AnswerSized res
    → Yields (RelayOf config) (with_addresses config res)
unfolding with_addresses
with_addresses-Yields config none h = Yields-pure (RelayOf config) none tt
with_addresses-Yields config (some (first, rest)) h =
    Yields-bind ChoiceSized (RelayOf config) (choose (is_set config.local_addr) (first ∷ rest)) _
      (choose-Yields (is_set config.local_addr) (first ∷ rest) h) (finish-Yields config)

pub new_relay-Yields : (config : RelayConfig) → Yields (RelayOf config) (new_relay config)
unfolding new_relay
new_relay-Yields config =
    let q = first_query (host_service config.local_addr) (host_service config.remote_addr) in
    Yields-if (no_port (host_service config.remote_addr)) (RelayOf config) _ _
      (λ e. Yields-pure (RelayOf config) none tt)
      (λ e.
        Yields-bind AnswerSized (RelayOf config) (getaddrinfo q) _ (Yields-getaddrinfo q)
          (with_addresses-Yields config))

-- If no address that the resolver answers is empty, a relay that new_relay returns has the
-- addresses of its configuration, is valid and idle, and follows the source of what it receives
-- exactly if only a local address is given; then, and only then, it has no peer yet.
pub new_relay-IsRelayOf :
    (config : RelayConfig) (s : Sys) (r : Relay)
    → Sized s
    → (new_relay config s).0 ≡ some r
    → IsRelayOf config r
unfolding Yields
new_relay-IsRelayOf config s r h e = rw e at (new_relay-Yields config s h).0
