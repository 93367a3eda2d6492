-- ===== src/Net.antt =====
-- The resolver and the calls on sockets that make a relay. They answer by the number of the call;
-- the log, the latest event first, has the descriptors and the address lists that are acquired and
-- given back, and the addresses that a descriptor is bound to.
use udprelayd.Base.{ℕ, ◌+◌, Bool, Option, none, some, List, ◌∷◌, if◌then◌else◌}

-- `struct addrinfo`
pub record AddrInfo : Type 0 where
  pub family : ℕ
  pub socktype : ℕ
  pub protocol : ℕ
  pub addr : List ℕ

-- The arguments of getaddrinfo: node, service, and the hints.
pub record Query : Type 0 where
  pub node : Option (List ℕ)
  pub service : Option (List ℕ)
  pub passive : Bool
  pub family : ℕ
  pub socktype : ℕ
  pub protocol : ℕ

pub data Event : Type 0 where
  opened : ℕ → Event
  closed : ℕ → Event
  bound : ℕ → List ℕ → Event
  resolved : Event
  released : Event

pub record Sys : Type 0 where
  -- A success has at least one address.
  pub resolve : ℕ → Query → Option (AddrInfo × List AddrInfo)
  pub socket_answer : ℕ → Option ℕ
  pub setsockopt_answer : ℕ → Bool
  pub bind_answer : ℕ → Bool
  pub calls : ℕ
  -- the latest event first
  pub log : List Event

abbrev pub Cmd : Type 0 → Type 0
Cmd A = Sys → A × Sys

unfoldable pub pure : {A : Type 0} → A → Cmd A
pure a s = (a, s)

infixl 5 ◌>>=◌ ◌>>◌
unfoldable pub ◌>>=◌ : {A B : Type 0} → Cmd A → (A → Cmd B) → Cmd B
◌>>=◌ m f s = let r = m s in f r.0 r.1

abbrev pub ◌>>◌ : {B : Type 0} → Cmd (Unit {0}) → Cmd B → Cmd B
m >> n = m >>= λ _. n

unfoldable pub getaddrinfo : Query → Cmd (Option (AddrInfo × List AddrInfo))
getaddrinfo q s =
    let answer = s.resolve s.calls q in
    (
      answer,
      record s {
        calls = s.calls + 1;
        log = elim answer [ none ↦ s.log | some res ↦ resolved ∷ s.log ];
      },
    )

unfoldable pub freeaddrinfo : Cmd (Unit {0})
freeaddrinfo s = (tt, record s { log = released ∷ s.log })

unfoldable pub socket : AddrInfo → Cmd (Option ℕ)
socket r s =
    let answer = s.socket_answer s.calls in
    (
      answer,
      record s {
        calls = s.calls + 1;
        log = elim answer [ none ↦ s.log | some fd ↦ opened fd ∷ s.log ];
      },
    )

-- True where the call succeeds.
unfoldable pub setsockopt : ℕ → Cmd Bool
setsockopt fd s = (s.setsockopt_answer s.calls, record s { calls = s.calls + 1 })

unfoldable pub bind : ℕ → AddrInfo → Cmd Bool
bind fd r s =
    let ok = s.bind_answer s.calls in
    (ok, record s { calls = s.calls + 1; log = if ok then bound fd r.addr ∷ s.log else s.log })

unfoldable pub close : ℕ → Cmd (Unit {0})
close fd s = (tt, record s { log = closed fd ∷ s.log })
