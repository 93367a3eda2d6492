-- ===== src/Setup.antt =====
-- relay.c and udprelayd.c: new_relay, and udprelay_init after the configuration has been read.
pub mod Counts
pub mod Create
pub mod Init
pub mod Results
pub mod Modes
pub mod Start
pub mod Leak
pub mod Peers
mod Tests
use udprelayd.Base.{
  ℕ, suc, ◌+◌, Bool, true, false, not, ◌&&◌, Option, none, some, List, [], ◌∷◌, ◌++◌, ◌==◌,
  if◌then◌else◌, length,
}
use udprelayd.Base.Int.{ℤ, pos, negsuc}
use udprelayd.Config.Bytes.{before}
use udprelayd.Config.{RelayConfig, Config, is_set}
use udprelayd.Lookup.{new_lookup}
use udprelayd.Lookup.Tree.{RbTree}
use udprelayd.Relay.{Relay}
use udprelayd.Net.{
  AddrInfo, Query, Event, opened, closed, resolved, released, Sys, Cmd, pure, ◌>>=◌, ◌>>◌,
  getaddrinfo, freeaddrinfo, socket, setsockopt, bind, close,
}
use udprelayd.Daemon.{Udprelay}

-- The bytes behind the first `c`, where there is one.
unfoldable pub behind : ℕ → List ℕ → Option (List ℕ)
behind c [] = none
behind c (b ∷ bs) = if b == c then some bs else behind c bs

-- `split_addr`, at the colon: host and service.
unfoldable pub split_addr : List ℕ → List ℕ × Option (List ℕ)
split_addr src = (before 58 src, behind 58 src)

-- What the loop over the addresses ends with: a descriptor and its address, none, or the return
-- from within the loop.
pub data Choice : Type 0 where
  chosen : ℕ → AddrInfo → Choice
  no_choice : Choice
  gave_up : Choice

-- What follows a socket for a local address; the last argument is what `continue` leads to.
unfoldable pub bind_socket : ℕ → AddrInfo → Cmd Choice → Cmd Choice
bind_socket fd r next = do
  optioned ← setsockopt fd
  if not optioned
      then (do close fd; pure gave_up)
      else (do bound ← bind fd r; if bound then pure (chosen fd r) else (do close fd; next))

unfoldable pub with_socket : Bool → AddrInfo → Cmd Choice → Option ℕ → Cmd Choice
with_socket local r next none = next
with_socket local r next (some fd) = if not local then pure (chosen fd r) else bind_socket fd r next

-- Choose first suitable address.
unfoldable pub choose : Bool → List AddrInfo → Cmd Choice
choose local [] = pure no_choice
choose local (r ∷ rs) = do answer ← socket r; with_socket local r (choose local rs) answer

-- `local_host[0] != '*' ? local_host : NULL`
unfoldable pub node_of : List ℕ → Option (List ℕ)
node_of [] = some []
node_of (b ∷ bs) = if b == 42 then none else some (b ∷ bs)

abbrev pub host_service : Option (List ℕ) → Option (List ℕ × Option (List ℕ))
host_service none = none
host_service (some addr) = some (split_addr addr)

-- The first query: for the local address where there is one. `AF_UNSPEC` is 0, `SOCK_DGRAM` is 2.
unfoldable pub first_query :
    Option (List ℕ × Option (List ℕ)) → Option (List ℕ × Option (List ℕ)) → Query
first_query (some (host, service)) remote = record {
  node = node_of host;
  service = service;
  passive = true;
  family = 0;
  socktype = 2;
  protocol = 0;
}
first_query none (some (host, service)) = record {
  node = some host;
  service = service;
  passive = false;
  family = 0;
  socktype = 2;
  protocol = 0;
}
first_query none none = record {
  node = none;
  service = none;
  passive = false;
  family = 0;
  socktype = 2;
  protocol = 0;
}

-- The second query, for the remote address, in the family of the local one.
unfoldable pub second_query : List ℕ × Option (List ℕ) → AddrInfo → Query
second_query (host, service) ai = record {
  node = some host;
  service = service;
  passive = false;
  family = ai.family;
  socktype = ai.socktype;
  protocol = ai.protocol;
}

-- The assignments of the new relay; `calloc` has set the rest to zero.
unfoldable pub make_relay : RelayConfig → ℕ → List ℕ → Relay
make_relay config fd remote_sa = record {
  fd = fd;
  remote_sa = remote_sa;
  remote_sa_len = length remote_sa;
  dynamic_out_addr = length remote_sa == 0;
  local_addr = config.local_addr;
  remote_addr = config.remote_addr;
  queue = [];
  send_buffer = none;
  send_buffer_size = 0;
  send_size = 0;
  recv_buffer = none;
  recv_size = 0;
}

-- `res_remote->ai_addr`
unfoldable pub first_address : Option (AddrInfo × List AddrInfo) → Cmd (Option (List ℕ))
first_address none = pure none
first_address (some (first, rest)) = do freeaddrinfo; pure (some first.addr)

-- Resolve remote address, if there is one, besides the local one.
unfoldable pub resolve_remote : Option (List ℕ × Option (List ℕ)) → AddrInfo → Cmd (Option (List ℕ))
resolve_remote none ai = pure (some [])
resolve_remote (some remote) ai = do res ← getaddrinfo (second_query remote ai); first_address res

-- The bytes of `remote_sa`, or `none` if the remote address has not been resolved.
unfoldable pub remote_address :
    Bool → Option (List ℕ × Option (List ℕ)) → AddrInfo → Cmd (Option (List ℕ))
remote_address local remote ai = if not local then pure (some ai.addr) else resolve_remote remote ai

-- The new relay, or `NULL` without a remote address that should be there.
unfoldable pub new_or_close : RelayConfig → ℕ → Option (List ℕ) → Cmd (Option Relay)
new_or_close config fd none = do close fd; pure none
new_or_close config fd (some remote_sa) = pure (some (make_relay config fd remote_sa))

-- After the choice.
unfoldable pub finish : RelayConfig → Choice → Cmd (Option Relay)
finish config gave_up = pure none
finish config no_choice = do freeaddrinfo; pure none
finish config (chosen fd ai) = do
  freeaddrinfo
  remote_sa ← remote_address (is_set config.local_addr) (host_service config.remote_addr) ai
  new_or_close config fd remote_sa

-- A remote address without a port.
unfoldable pub no_port : Option (List ℕ × Option (List ℕ)) → Bool
no_port (some (host, none)) = true
no_port _ = false

-- With the answer to the first query.
unfoldable pub with_addresses : RelayConfig → Option (AddrInfo × List AddrInfo) → Cmd (Option Relay)
with_addresses config none = pure none
with_addresses config (some (first, rest)) = do
  choice ← choose (is_set config.local_addr) (first ∷ rest)
  finish config choice

unfoldable pub new_relay : RelayConfig → Cmd (Option Relay)
new_relay config = if no_port (host_service config.remote_addr) then pure none else (do
  res ← getaddrinfo (first_query (host_service config.local_addr) (host_service config.remote_addr))
  with_addresses config res)

-- udprelay_cleanup in udprelay_init: every relay's descriptor, and then the outward one's.
unfoldable pub close_all : List Relay → Cmd (Unit {0})
close_all [] = pure tt
close_all (r ∷ rs) = do close r.fd; close_all rs

-- The new relay at the end of the list, or `false` without it.
unfoldable pub add_or_stop :
    List Relay → (List Relay → Cmd (List Relay × Bool)) → Option Relay → Cmd (List Relay × Bool)
add_or_stop relays next none = pure (relays, false)
add_or_stop relays next (some r) = next (relays ++ r ∷ [])

-- Add relays: those there are so far are the first argument.
unfoldable pub add_relays : List Relay → List RelayConfig → Cmd (List Relay × Bool)
add_relays relays [] = pure (relays, true)
add_relays relays (c ∷ cs) = do
  relay ← new_relay c
  add_or_stop relays (λ relays. add_relays relays cs) relay

module _ (t : RbTree) where
  unfoldable pub start_or_stop : Config → Relay → List Relay × Bool → Cmd (Option (Udprelay t.T))
  start_or_stop config outward (relays, true) = pure (
      some (record {
        outward = outward;
        relays = relays;
        lookup = new_lookup t config.track;
        relays_num = length relays;
        seq = 0;
      }))
  start_or_stop config outward (relays, false) = do close_all relays; close outward.fd; pure none

  unfoldable pub init_relays : Config → Option Relay → Cmd (Option (Udprelay t.T))
  init_relays config none = pure none
  init_relays config (some outward) = do
    added ← add_relays [] config.relay_config
    start_or_stop config outward added

  -- udprelay_init with the result of parse_config; `none` is its result -1.
  unfoldable pub udprelay_init : Option Config → Cmd (Option (Udprelay t.T))
  udprelay_init none = pure none
  udprelay_init (some config) = do outward ← new_relay config.outward; init_relays config outward
