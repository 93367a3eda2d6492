-- ===== src/Daemon.antt =====
-- udprelayd.c: the daemon's state, the two dispatch functions and the main loop, without DEBUG.
-- The circular list `relays` is a list of relays (see Clist), `none` is a fault, a read through
-- `NULL`, and `free_relay` closes the descriptor.
pub mod Loop
pub mod Header
pub mod Sends
pub mod Inbound
pub mod Relayed
pub mod Deliver
pub mod Benign
pub mod Serving
pub mod Packets
pub mod Rounds
pub mod Select
pub mod Drains
mod Tests
use udprelayd.Base.{
  ℕ, ◌+◌, ◌-◌, ◌*◌, ◌/◌, ◌%◌, ◌^◌, Bool, true, false, not, ◌&&◌, ◌||◌, Option, none, some, List, [],
  ◌∷◌, ◌++◌, ◌==◌, ltb, if◌then◌else◌, length, take, drop,
}
use udprelayd.Base.Int.{ℤ, pos, negsuc}
use udprelayd.Utils.{max}
use udprelayd.Os
use udprelayd.Os.{Cmd, Kernel, Errno, is_eagain}
use udprelayd.Lookup.{Lookup, lookup_push}
use udprelayd.Lookup.Tree.{RbTree}
use udprelayd.Relay.{
  Relay, FdSet, is_neg, relay_fd_set, relay_enqueue, relay_receive, relay_handle, free_relay,
}

-- A command that may fault.
abbrev pub Run : Type 0 → Type 0
Run A = Kernel → Option (A × Kernel)

abbrev pub pure : {A : Type 0} → A → Run A
pure a k = some (a, k)

-- a command that does not fault
abbrev pub call : {A : Type 0} → Cmd A → Run A
call m k = some (m k)

infixl 5 ◌>>=◌ ◌>>◌
abbrev pub ◌>>=◌ : {A B : Type 0} → Run A → (A → Run B) → Run B
◌>>=◌ m f k = elim (m k) [ none ↦ none | some (a, k') ↦ f a k' ]

abbrev pub ◌>>◌ : {B : Type 0} → Run (Unit {0}) → Run B → Run B
m >> n = m >>= λ _. n

-- `sizeof(header_t)`
abbrev pub header_size : ℕ
header_size = 2

-- The bytes of `htons(seq)`, and the number that `ntohs` reads from them.
unfoldable pub htons : ℕ → List ℕ
htons seq = seq / 256 ∷ seq % 256 ∷ []

unfoldable pub ntohs : List ℕ → ℕ
ntohs (hi ∷ lo ∷ rest) = hi * 256 + lo
ntohs _ = 0

pub record Udprelay (T : Type 0) : Type 0 where
  pub outward : Relay
  pub relays : List Relay
  pub lookup : Lookup T
  pub relays_num : ℕ
  pub seq : ℕ

-- Strip header and forward, if the number is new.
unfoldable pub forward : {T : Type 0} → Udprelay T → List ℕ → Bool → Run (ℤ × Udprelay T)
forward u buffer added = if not added then pure (pos 0, u) else (do
  (ret, outward) ← call (relay_enqueue u.outward (drop header_size buffer))
  pure (ret, record u { outward = outward }))

-- Check for duplicates, and forward.
unfoldable pub check_seq :
    {T : Type 0} → Udprelay T → List ℕ → Option (Lookup T × Bool) → Run (ℤ × Udprelay T)
check_seq u buffer none = λ k. none
check_seq u buffer (some (lookup, added)) = forward (record u { lookup = lookup }) buffer added

-- Handle packet received from peers.
unfoldable pub dispatch_relayed : (t : RbTree) → Udprelay t.T → List ℕ → Run (ℤ × Udprelay t.T)
dispatch_relayed t u buffer =
    if ltb (length buffer) header_size
    then pure (pos 0, u)
    else check_seq u buffer (lookup_push t u.lookup (ntohs buffer))

-- What a loop over the relays does with one of them: it stays, or it is unlinked and freed.
unfoldable pub keep_or_free : ℤ × Relay → Cmd (Option Relay)
keep_or_free (ret, r) k = if is_neg ret then (none, (free_relay r k).1) else (some r, k)

abbrev pub link : Option Relay → List Relay → List Relay
link none rs = rs
link (some r) rs = r ∷ rs

-- `relays_num--` beside the removal
abbrev pub recount : Option Relay → ℕ → ℕ
recount none n = n - 1
recount (some r) n = n

-- The loop of dispatch_inbound, over the relays and their number.
unfoldable pub broadcast : List Relay → List ℕ → ℕ → Cmd (List Relay × ℕ)
broadcast [] pkt num k = (([], num), k)
broadcast (r ∷ rs) pkt num k =
    let (res, k₁) = relay_enqueue r pkt k in
    let (kept, k₂) = keep_or_free res k₁ in
    let ((rest, num'), k₃) = broadcast rs pkt (recount kept num) k₂ in ((link kept rest, num'), k₃)

-- `relays = relays->_next`
unfoldable pub round_robin : List Relay → Option (List Relay)
round_robin [] = none
round_robin (r ∷ rs) = some (rs ++ r ∷ [])

-- The assignments after the loop.
unfoldable pub next_round :
    {T : Type 0} → Udprelay T → Option (List Relay) → ℕ → Run (ℤ × Udprelay T)
next_round u none num k = none
next_round u (some relays) num k =
    some ((pos 0, record u { relays = relays; relays_num = num; seq = (u.seq + 1) % 2 ^ 16 }), k)

-- Handle packet received from outward interface.
unfoldable pub dispatch_inbound : {T : Type 0} → Udprelay T → List ℕ → Run (ℤ × Udprelay T)
dispatch_inbound u buffer k =
    let ((relays, num), k') = broadcast u.relays (htons u.seq ++ buffer) u.relays_num k in
    next_round u (round_robin relays) num k'

-- The descriptors that a round waits for: each relay's, and then the outward one's.
unfoldable pub wait_sets : List Relay → FdSet × FdSet → FdSet × FdSet
wait_sets [] sets = sets
wait_sets (r ∷ rs) (rfds, wfds) = wait_sets rs (relay_fd_set r rfds wfds)

unfoldable pub fd_sets : {T : Type 0} → Udprelay T → FdSet × FdSet
fd_sets u =
    let (rfds, wfds) = wait_sets u.relays (λ _. false, λ _. false) in
    relay_fd_set u.outward rfds wfds

-- `maxfd`
unfoldable pub max_fd : List Relay → ℕ → ℕ
max_fd [] maxfd = maxfd
max_fd (r ∷ rs) maxfd = max_fd rs (max maxfd r.fd)

-- `maxfd + 1`, the first argument of `select`
unfoldable pub nfds : {T : Type 0} → Udprelay T → ℕ
nfds u = max (max_fd u.relays 0) u.outward.fd + 1

-- Handle relays.
unfoldable pub handle_relays : List Relay → ℕ → FdSet → FdSet → Cmd (List Relay × ℕ)
handle_relays [] num rfds wfds k = (([], num), k)
handle_relays (r ∷ rs) num rfds wfds k =
    let (res, k₁) = relay_handle r rfds wfds k in
    let (kept, k₂) = keep_or_free res k₁ in
    let ((rest, num'), k₃) = handle_relays rs (recount kept num) rfds wfds k₂ in
    ((link kept rest, num'), k₃)
