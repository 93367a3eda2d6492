-- ===== src/Setup/Peers.antt =====
-- new_relay: where a relay is bound, and where its datagrams go.
use udprelayd.Base.{
  ℕ, ◌+◌, ◌≡◌, refl, ◌∙◌, ◌⊎◌, inl, inr, Bool, true, false, Option, none, some, List, [], ◌∷◌,
  Bool-cases, Option-cases, length,
}
use udprelayd.Config.{RelayConfig, is_set}
use udprelayd.Relay.{Relay}
use udprelayd.Net.{
  AddrInfo, Query, Event, bound, resolved, released, Sys, Cmd, pure, ◌>>=◌, getaddrinfo,
  freeaddrinfo, socket, setsockopt, bind, close,
}
use udprelayd.Setup.{
  Choice, chosen, no_choice, gave_up, bind_socket, with_socket, choose, node_of, host_service,
  split_addr, first_query, second_query, first_address, resolve_remote, remote_address,
  new_or_close, make_relay, finish, no_port, with_addresses, new_relay,
}

abbrev pub InList : AddrInfo → List AddrInfo → Type 0
InList ai [] = ⊥
InList ai (x ∷ xs) = (x ≡ ai) ⊎ InList ai xs

-- The descriptor has been bound to the address.
abbrev pub Bound : ℕ → List ℕ → List Event → Type 0
Bound fd addr [] = ⊥
Bound fd addr (bound a b ∷ log) = ((a ≡ fd) × (b ≡ addr)) ⊎ Bound fd addr log
Bound fd addr (_ ∷ log) = Bound fd addr log

abbrev pub BoundIf : Bool → ℕ → AddrInfo → List Event → Type 0
BoundIf false fd ai log = Unit
BoundIf true fd ai log = Bound fd ai.addr log

-- The address that has been chosen, and bound to where there is a local address.
abbrev Chosen : Bool → List AddrInfo → Choice → List Event → Type 0
Chosen local rs (chosen fd ai) log = InList ai rs × BoundIf local fd ai log
Chosen local rs no_choice log = Unit
Chosen local rs gave_up log = Unit

Chosen-later :
    (local : Bool) (r : AddrInfo) (rs : List AddrInfo) (c : Choice) (log : List Event)
    → Chosen local rs c log
    → Chosen local (r ∷ rs) c log
Chosen-later local r rs (chosen fd ai) log h = (inr h.0, h.1)
Chosen-later local r rs no_choice log h = tt
Chosen-later local r rs gave_up log h = tt

abbrev Chooses : Bool → List AddrInfo → Cmd Choice → Type 0
Chooses local rs m = (s : Sys) → ((m s).1.resolve ≡ s.resolve) × Chosen local rs (m s).0 (m s).1.log

Chooses-later :
    (local : Bool) (r : AddrInfo) (rs : List AddrInfo) (m : Cmd Choice)
    → Chooses local rs m
    → Chooses local (r ∷ rs) m
Chooses-later local r rs m h s = ((h s).0, Chosen-later local r rs (m s).0 (m s).1.log (h s).1)

bind_socket-Chooses :
    (fd : ℕ) (r : AddrInfo) (rs : List AddrInfo) (next : Cmd Choice)
    → Chooses true rs next
    → Chooses true (r ∷ rs) (bind_socket fd r next)
unfolding bind_socket setsockopt bind close pure ◌>>=◌
bind_socket-Chooses fd r rs next h s = elim (Bool-cases (s.setsockopt_answer s.calls)) [
  | inr fails ↦ rw fails (refl, tt)
  | inl optioned ↦ elim (Bool-cases (s.bind_answer (s.calls + 1))) [
    | inl ok ↦ rw optioned (rw ok (refl, (inl refl, inl (refl, refl))))
    | inr fails ↦ rw optioned (rw fails (Chooses-later true r rs next h _))
  ]
]

with_socket-Chooses :
    (local : Bool) (r : AddrInfo) (rs : List AddrInfo) (next : Cmd Choice) (answer : Option ℕ)
    → Chooses local rs next
    → Chooses local (r ∷ rs) (with_socket local r next answer)
unfolding with_socket pure
with_socket-Chooses local r rs next none h = Chooses-later local r rs next h
with_socket-Chooses false r rs next (some fd) h = λ s. (refl, (inl refl, tt))
with_socket-Chooses true r rs next (some fd) h = bind_socket-Chooses fd r rs next h

choose-Chooses : (local : Bool) (rs : List AddrInfo) → Chooses local rs (choose local rs)
unfolding choose pure ◌>>=◌ socket
choose-Chooses local [] = λ s. (refl, tt)
choose-Chooses local (r ∷ rs) = λ s.
    with_socket-Chooses local r rs (choose local rs) (s.socket_answer s.calls)
      (choose-Chooses local rs) (socket r s).1

-- The host and the service of an address that a query asks for.
abbrev pub Asks : List ℕ × Option (List ℕ) → Query → Type 0
Asks (host, service) q = (q.node ≡ some host) × (q.service ≡ service)

-- What the datagrams' destination is, after the choice of `ai`.
abbrev Goes : Bool → Option (List ℕ × Option (List ℕ)) → AddrInfo → Sys → Option (List ℕ) → Type 0
Goes local remote ai s none = Unit
Goes false remote ai s (some sa) = sa ≡ ai.addr
Goes true none ai s (some sa) = sa ≡ []
Goes true (some remote) ai s (some sa) =
    (n : ℕ) × (q : Query) × (first : AddrInfo) × (rest : List AddrInfo) × Asks remote q
    × (s.resolve n q ≡ some (first, rest))
    × (sa ≡ first.addr)

-- What has been bound stays.
abbrev KeepsBound : {A : Type 0} → Cmd A → Type 0
KeepsBound m = (s : Sys) (fd : ℕ) (addr : List ℕ) → Bound fd addr s.log → Bound fd addr (m s).1.log

remote_address-Goes :
    (local : Bool) (remote : Option (List ℕ × Option (List ℕ))) (ai : AddrInfo) (s : Sys)
    → Goes local remote ai s (remote_address local remote ai s).0
unfolding remote_address resolve_remote first_address getaddrinfo freeaddrinfo second_query pure
    ◌>>=◌
remote_address-Goes false remote ai s = refl
remote_address-Goes true none ai s = refl
remote_address-Goes true (some (host, service)) ai s =
    let q = second_query (host, service) ai in
    elim (Option-cases (s.resolve s.calls q)) [
      | inl e ↦ rw e tt
      | inr ((first, rest), e) ↦ rw e (s.calls, q, first, rest, (refl, refl), e, refl)
    ]

remote_address-KeepsBound :
    (local : Bool) (remote : Option (List ℕ × Option (List ℕ))) (ai : AddrInfo)
    → KeepsBound (remote_address local remote ai)
unfolding remote_address resolve_remote first_address getaddrinfo freeaddrinfo pure ◌>>=◌
remote_address-KeepsBound false remote ai s fd addr h = h
remote_address-KeepsBound true none ai s fd addr h = h
remote_address-KeepsBound true (some remote) ai s fd addr h =
    elim (Option-cases (s.resolve s.calls (second_query remote ai))) [
      | inl e ↦ rw e h
      | inr ((first, rest), e) ↦ rw e h
    ]

Goes-same :
    (local : Bool) (remote : Option (List ℕ × Option (List ℕ))) (ai : AddrInfo) (s s' : Sys)
    (sa : Option (List ℕ))
    → s'.resolve ≡ s.resolve
    → Goes local remote ai s' sa
    → Goes local remote ai s sa
Goes-same local remote ai s s' none e h = tt
Goes-same false remote ai s s' (some sa) e h = h
Goes-same true none ai s s' (some sa) e h = h
Goes-same true (some remote) ai s s' (some sa) e (n, q, first, rest, asks, answer, same) =
    (n, q, first, rest, asks, rw e at answer, same)

-- The relay that is returned, for the choice.
abbrev Ends : RelayConfig → ℕ → AddrInfo → Sys → Option Relay × Sys → Type 0
Ends config fd ai s (none, s') = Unit
Ends config fd ai s (some r, s') =
    (r.fd ≡ fd)
    × (r.remote_sa_len ≡ length r.remote_sa)
    × Goes (is_set config.local_addr) (host_service config.remote_addr) ai s (some r.remote_sa)
    × ((addr : List ℕ) → Bound fd addr s.log → Bound fd addr s'.log)

new_or_close-Ends :
    (config : RelayConfig) (fd : ℕ) (ai : AddrInfo) (s s' : Sys) (sa : Option (List ℕ))
    → Goes (is_set config.local_addr) (host_service config.remote_addr) ai s sa
    → ((addr : List ℕ) → Bound fd addr s.log → Bound fd addr s'.log)
    → Ends config fd ai s (new_or_close config fd sa s')
unfolding new_or_close make_relay pure close ◌>>=◌
new_or_close-Ends config fd ai s s' none h keeps = tt
new_or_close-Ends config fd ai s s' (some sa) h keeps = (refl, refl, h, keeps)

finish-Ends :
    (config : RelayConfig) (fd : ℕ) (ai : AddrInfo) (s : Sys)
    → Ends config fd ai s (finish config (chosen fd ai) s)
unfolding finish ◌>>=◌ freeaddrinfo
finish-Ends config fd ai s =
    let local = is_set config.local_addr in
    let remote = host_service config.remote_addr in
    let s₁ = record s { log = released ∷ s.log } in
    let (sa, s₂) = remote_address local remote ai s₁ in
    new_or_close-Ends config fd ai s s₂ sa
      (Goes-same local remote ai s s₁ sa refl (remote_address-Goes local remote ai s₁))
      (λ addr h. remote_address-KeepsBound local remote ai s₁ fd addr h)

-- The first query: for the local address, to bind to it, where there is one, and else for the remote
-- one.
abbrev pub AsksFirst : Option (List ℕ) → Option (List ℕ) → Query → Type 0
AsksFirst (some addr) remote q =
    let (host, service) = split_addr addr in
    (q.node ≡ node_of host) × (q.service ≡ service) × (q.passive ≡ true)
AsksFirst none (some addr) q = Asks (split_addr addr) q
AsksFirst none none q = Unit

first_query-AsksFirst :
    (local remote : Option (List ℕ))
    → AsksFirst local remote (first_query (host_service local) (host_service remote))
unfolding first_query
first_query-AsksFirst (some addr) remote = (refl, refl, refl)
first_query-AsksFirst none (some addr) = (refl, refl)
first_query-AsksFirst none none = tt

-- The relay, for the configuration: `ai` is an address that the resolver has given for the first
-- query, the descriptor is bound to it if it is a local one, and the datagrams go where Goes says.
abbrev pub IsPeered : RelayConfig → Sys → Option Relay × Sys → Type 0
IsPeered config s (none, s') = Unit
IsPeered config s (some r, s') =
    (n : ℕ) × (q : Query) × (first : AddrInfo) × (rest : List AddrInfo) × (ai : AddrInfo)
    × AsksFirst config.local_addr config.remote_addr q
    × (s.resolve n q ≡ some (first, rest))
    × InList ai (first ∷ rest)
    × BoundIf (is_set config.local_addr) r.fd ai s'.log
    × Goes (is_set config.local_addr) (host_service config.remote_addr) ai s (some r.remote_sa)
    × (r.remote_sa_len ≡ length r.remote_sa)

BoundIf-later :
    (local : Bool) (fd fd' : ℕ) (ai : AddrInfo) (s s' : Sys)
    → fd' ≡ fd
    → ((addr : List ℕ) → Bound fd addr s.log → Bound fd addr s'.log)
    → BoundIf local fd ai s.log
    → BoundIf local fd' ai s'.log
BoundIf-later false fd fd' ai s s' e keeps h = tt
BoundIf-later true fd fd' ai s s' e keeps h = rw e (keeps ai.addr h)

-- After the choice among the addresses that the first query has found.
module _ (config : RelayConfig) (s : Sys) (n : ℕ) (q : Query) (first : AddrInfo)
    (rest : List AddrInfo) (asks : AsksFirst config.local_addr config.remote_addr q)
    (answer : s.resolve n q ≡ some (first, rest)) where
  ended :
      (fd : ℕ) (ai : AddrInfo) (s₁ : Sys) (res : Option Relay × Sys)
      → s₁.resolve ≡ s.resolve
      → Chosen (is_set config.local_addr) (first ∷ rest) (chosen fd ai) s₁.log
      → Ends config fd ai s₁ res
      → IsPeered config s res
  ended fd ai s₁ (none, s') same c h = tt
  ended fd ai s₁ (some r, s') same (found, is_bound) (same_fd, len, goes, keeps) = (
    n,
    q,
    first,
    rest,
    ai,
    asks,
    answer,
    found,
    BoundIf-later (is_set config.local_addr) fd r.fd ai s₁ s' same_fd keeps is_bound,
    Goes-same (is_set config.local_addr) (host_service config.remote_addr) ai s s₁
        (some r.remote_sa) same goes,
    len,
  )

  finish-IsPeered :
      (c : Choice) (s₁ : Sys)
      → s₁.resolve ≡ s.resolve
      → Chosen (is_set config.local_addr) (first ∷ rest) c s₁.log
      → IsPeered config s (finish config c s₁)
  unfolding finish freeaddrinfo pure ◌>>=◌
  finish-IsPeered gave_up s₁ same c = tt
  finish-IsPeered no_choice s₁ same c = tt
  finish-IsPeered (chosen fd ai) s₁ same c =
      ended fd ai s₁ (finish config (chosen fd ai) s₁) same c (finish-Ends config fd ai s₁)

  with_addresses-IsPeered :
      (s₁ : Sys)
      → s₁.resolve ≡ s.resolve
      → IsPeered config s (with_addresses config (some (first, rest)) s₁)
  unfolding with_addresses ◌>>=◌
  with_addresses-IsPeered s₁ same =
      let local = is_set config.local_addr in
      let (c, s₂) = choose local (first ∷ rest) s₁ in
      let (same', h) = choose-Chooses local (first ∷ rest) s₁ in
      finish-IsPeered c s₂ (same' ∙ same) h

-- Of a relay that new_relay returns, whatever the resolver and the socket calls answer: with a local
-- address, the descriptor is bound to an address that the resolver gives for its host, any for `*`,
-- and its port; the datagrams go to the first address that it gives for the remote host and port, or
-- nowhere yet without a remote address. Without a local address, they go to one of the addresses
-- that it gives for the remote host and port.
pub new_relay-IsPeered : (config : RelayConfig) (s : Sys) → IsPeered config s (new_relay config s)
unfolding new_relay getaddrinfo with_addresses pure ◌>>=◌
new_relay-IsPeered config s =
    let q = first_query (host_service config.local_addr) (host_service config.remote_addr) in
    elim (Bool-cases (no_port (host_service config.remote_addr))) [
      | inl missing ↦ rw missing tt
      | inr there ↦ rw there (elim (Option-cases (s.resolve s.calls q)) [
        | inl e ↦ rw e tt
        | inr ((first, rest), e) ↦ rw e (
            with_addresses-IsPeered config s s.calls q first rest
              (first_query-AsksFirst config.local_addr config.remote_addr) e
              (record s { calls = s.calls + 1; log = resolved ∷ s.log }) refl)
      ])
    ]
