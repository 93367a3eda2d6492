-- ===== src/Setup/Leak.antt =====
-- new_relay: the address lists of the resolver, and the return from within its loop, after a
-- setsockopt that fails.
use udprelayd.Base.{
  ℕ, suc, ◌+◌, ◌≡◌, refl, Bool, true, false, Option, some, none, List, [], ◌∷◌, arith,
  if◌then◌else◌, Bool-cases, Option-cases, inl, inr,
}
use udprelayd.Config.{RelayConfig, is_set}
use udprelayd.Net.{
  AddrInfo, Event, opened, closed, resolved, released, Sys, Cmd, pure, ◌>>=◌, getaddrinfo, socket,
  setsockopt, bind, close, freeaddrinfo,
}
use udprelayd.Setup.{
  Choice, chosen, no_choice, gave_up, bind_socket, with_socket, choose, finish, host_service,
  no_port, first_query, second_query, with_addresses, remote_address, resolve_remote, first_address,
  new_or_close, new_relay,
}

-- How many address lists have been resolved, and released.
unfoldable pub resolved_count : List Event → ℕ
resolved_count [] = 0
resolved_count (resolved ∷ log) = suc (resolved_count log)
resolved_count (_ ∷ log) = resolved_count log

unfoldable pub released_count : List Event → ℕ
released_count [] = 0
released_count (released ∷ log) = suc (released_count log)
released_count (_ ∷ log) = released_count log

-- From `a` lists that are held to `b`.
abbrev pub Held : ℕ → Sys → ℕ → Sys → Type 0
Held a s b s' =
    resolved_count s'.log + released_count s.log + a
    ≡ resolved_count s.log + released_count s'.log + b

-- The specification: for the addresses in their order, setsockopt fails on a socket before one is
-- bound. The number is that of the next call.
unfoldable pub unset : Sys → ℕ → List AddrInfo → Bool
unset s n [] = false
unset s n (r ∷ rs) =
    let closed_then = unset s (n + 1) rs in
    let unbound_then = unset s (n + 1 + 1 + 1) rs in
    elim (s.socket_answer n) [
      | none ↦ closed_then
      | some fd ↦
          if s.setsockopt_answer (n + 1)
          then (if s.bind_answer (n + 1 + 1) then false else unbound_then)
          else true
    ]

abbrev gives_up : Choice → Bool
gives_up gave_up = true
gives_up _ = false

-- A command that chooses, for the answers of `s`, and holds as many lists as before.
abbrev Chooses : Sys → Bool → Cmd Choice → ℕ → Type 0
Chooses s b m n =
    (log : List Event)
    → let s₁ = record s { calls = n; log = log } in (gives_up (m s₁).0 ≡ b) × Held 1 s₁ 1 (m s₁).1

bind_socket-unset :
    (s : Sys) (n fd : ℕ) (r : AddrInfo) (next : Cmd Choice) (b : Bool)
    → Chooses s b next (n + 1 + 1)
    → Chooses s
        (if s.setsockopt_answer n then (if s.bind_answer (n + 1) then false else b) else true)
        (bind_socket fd r next)
        n
unfolding bind_socket setsockopt bind close pure ◌>>=◌ resolved_count released_count
bind_socket-unset s n fd r next b h log = elim (Bool-cases (s.setsockopt_answer n)) [
  | inr fails ↦ rw fails (refl, omega arith)
  | inl optioned ↦ elim (Bool-cases (s.bind_answer (n + 1))) [
    | inl ok ↦ rw optioned (rw ok (refl, omega arith))
    | inr fails ↦ rw optioned (rw fails (h (closed fd ∷ log)))
  ]
]

choose-unset : (s : Sys) (n : ℕ) (rs : List AddrInfo) → Chooses s (unset s n rs) (choose true rs) n
unfolding choose with_socket socket unset pure ◌>>=◌ resolved_count released_count
choose-unset s n [] log = (refl, omega arith)
choose-unset s n (r ∷ rs) log = elim (Option-cases (s.socket_answer n)) [
  | inl e ↦ rw (e, unset) (choose-unset s (n + 1) rs log)
  | inr (fd, e) ↦
      rw (e, unset)
        (bind_socket-unset s (n + 1) fd r (choose true rs) (unset s (n + 1 + 1 + 1) rs)
          (choose-unset s (n + 1 + 1 + 1) rs) (opened fd ∷ log))
]

-- Without a local address setsockopt is not called.
choose-remote :
    (rs : List AddrInfo) (s : Sys)
    → let (c, s') = choose false rs s in (gives_up c ≡ false) × Held 1 s 1 s'
unfolding choose with_socket socket pure ◌>>=◌ resolved_count released_count
choose-remote [] s = (refl, omega arith)
choose-remote (r ∷ rs) s = elim (Option-cases (s.socket_answer s.calls)) [
  | inl e ↦ rw e (choose-remote rs (record s { calls = s.calls + 1 }))
  | inr (fd, e) ↦ rw e (refl, omega arith)
]

remote_address-Held :
    (local : Bool) (remote : Option (List ℕ × Option (List ℕ))) (ai : AddrInfo) (s : Sys)
    → Held 0 s 0 (remote_address local remote ai s).1
unfolding remote_address resolve_remote first_address getaddrinfo freeaddrinfo pure ◌>>=◌
    resolved_count released_count
remote_address-Held false remote ai s = omega arith
remote_address-Held true none ai s = omega arith
remote_address-Held true (some remote) ai s =
    elim (Option-cases (s.resolve s.calls (second_query remote ai))) [
      | inl e ↦ rw e (omega arith)
      | inr ((first, rest), e) ↦ rw e (omega arith)
    ]

new_or_close-Held :
    (config : RelayConfig) (fd : ℕ) (sa : Option (List ℕ)) (s : Sys)
    → Held 0 s 0 (new_or_close config fd sa s).1
unfolding new_or_close pure close ◌>>=◌ resolved_count released_count
new_or_close-Held config fd none s = omega arith
new_or_close-Held config fd (some sa) s = omega arith

Held-trans : (a b c : ℕ) (s s₁ s₂ : Sys) → Held a s b s₁ → Held b s₁ c s₂ → Held a s c s₂
Held-trans a b c s s₁ s₂ h g = omega (arith, h, g)

finish-Held :
    (config : RelayConfig) (c : Choice) (s : Sys)
    → Held 1 s (if gives_up c then 1 else 0) (finish config c s).1
unfolding finish freeaddrinfo pure ◌>>=◌ resolved_count released_count
finish-Held config gave_up s = omega arith
finish-Held config no_choice s = omega arith
finish-Held config (chosen fd ai) s =
    let s₁ = record s { log = released ∷ s.log } in
    let (sa, s₂) =
      remote_address (is_set config.local_addr) (host_service config.remote_addr) ai s₁ in
    let h =
      remote_address-Held (is_set config.local_addr) (host_service config.remote_addr) ai s₁ in
    let g = new_or_close-Held config fd sa s₂ in omega (arith, h, g)

-- The lists that new_relay forgets, by the answers.
abbrev pub forgotten : RelayConfig → Sys → ℕ
forgotten config s =
    if no_port (host_service config.remote_addr)
    then 0
    else elim (s.resolve s.calls
        (first_query (host_service config.local_addr) (host_service config.remote_addr))) [
          | none ↦ 0
          | some (first, rest) ↦
              if is_set config.local_addr
              then (if unset s (s.calls + 1) (first ∷ rest) then 1 else 0)
              else 0
        ]

with_addresses-Held :
    (config : RelayConfig) (first : AddrInfo) (rest : List AddrInfo) (s : Sys) (n : ℕ)
    (log : List Event)
    → Held 1
        (record s { calls = n; log = log })
        (if is_set config.local_addr then (if unset s n (first ∷ rest) then 1 else 0) else 0)
        (with_addresses config (some (first, rest)) (record s { calls = n; log = log })).1
unfolding with_addresses ◌>>=◌
with_addresses-Held config first rest s n log =
    let s₁ = record s { calls = n; log = log } in
    elim (Bool-cases (is_set config.local_addr)) [
      | inl local ↦
          let (c, s₂) = choose true (first ∷ rest) s₁ in
          let (same, h) = choose-unset s n (first ∷ rest) log in
          let g = finish-Held config c s₂ in
          rw (local, ← same)
            (Held-trans 1 1 (if gives_up c then 1 else 0) s₁ s₂ (finish config c s₂).1 h g)
      | inr remote ↦
          let (c, s₂) = choose false (first ∷ rest) s₁ in
          let (same, h) = choose-remote (first ∷ rest) s₁ in
          let g = finish-Held config c s₂ in
          rw remote (Held-trans 1 1 0 s₁ s₂ (finish config c s₂).1 h (rw same at g))
    ]

-- Whatever the resolver and the socket calls answer, new_relay releases each address list that it
-- resolves, except in one case: with a local address, it forgets one list if, for the addresses in
-- their order, setsockopt fails on a socket before one is bound.
pub new_relay-lists :
    (config : RelayConfig) (s : Sys)
    → let s' = (new_relay config s).1 in
      resolved_count s'.log + released_count s.log
      ≡ resolved_count s.log + released_count s'.log + forgotten config s
unfolding new_relay getaddrinfo with_addresses pure ◌>>=◌ resolved_count released_count
new_relay-lists config s =
    let q = first_query (host_service config.local_addr) (host_service config.remote_addr) in
    elim (Bool-cases (no_port (host_service config.remote_addr))) [
      | inl missing ↦ rw missing (omega arith)
      | inr there ↦ rw there (elim (Option-cases (s.resolve s.calls q)) [
        | inl e ↦ rw e (omega arith)
        | inr ((first, rest), e) ↦ rw e (
            let h = with_addresses-Held config first rest s (s.calls + 1) (resolved ∷ s.log) in
            omega (arith, h))
      ])
    ]
