-- ===== src/Os.antt =====
-- The system calls that relay.c and udprelayd.c make, as commands on a kernel whose answers are
-- given in advance and which logs what it was asked. Nothing is assumed of the answers: a theorem
-- for every `Kernel` holds whatever the network does. `syslog` has no effect that is modelled.
use udprelayd.Base.{
  ℕ, ◌+◌, Bool, true, false, List, [], ◌∷◌, ◌++◌, take, drop, length, take-length,
  take-length-append, length-append, length-drop, ◌≡◌, ◌∙◌, ap, ◌-◌,
}

-- The values of `errno` that the program tests for, and any other.
pub data Errno : Type 0 where
  eagain emsgsize ehostunreach enetunreach eintr other : Errno

abbrev pub is_eagain : Errno → Bool
is_eagain eagain = true
is_eagain _ = false

-- `errno == EHOSTUNREACH || errno == ENETUNREACH`
abbrev pub is_unreachable : Errno → Bool
is_unreachable ehostunreach = true
is_unreachable enetunreach = true
is_unreachable _ = false

abbrev pub is_emsgsize : Errno → Bool
is_emsgsize emsgsize = true
is_emsgsize _ = false

-- A result of type `ssize_t`: a size, or -1 with `errno` set.
pub data Ssize : Type 0 where
  size : ℕ → Ssize
  failed : Errno → Ssize

-- What `recvfrom` finds: a datagram and its source address, or an error.
pub data Arrival : Type 0 where
  datagram : List ℕ → List ℕ → Arrival
  nothing : Errno → Arrival

pub data Event : Type 0 where
  -- descriptor, contents, destination, result
  sent : ℕ → List ℕ → List ℕ → Ssize → Event
  received : ℕ → Event
  closed : ℕ → Event

pub record Kernel : Type 0 where
  -- the answer to the n-th call of `sendto`, and of `recvfrom`
  pub send_answer : ℕ → Ssize
  pub recv_answer : ℕ → Arrival
  pub sends : ℕ
  pub recvs : ℕ
  pub log : List Event

abbrev pub Cmd : Type 0 → Type 0
Cmd A = Kernel → A × Kernel

abbrev pub pure : {A : Type 0} → A → Cmd A
pure a k = (a, k)

infixl 5 ◌>>=◌ ◌>>◌
abbrev pub ◌>>=◌ : {A B : Type 0} → Cmd A → (A → Cmd B) → Cmd B
◌>>=◌ m f k = let r = m k in f r.0 r.1

abbrev pub ◌>>◌ : {B : Type 0} → Cmd (Unit {0}) → Cmd B → Cmd B
m >> n = m >>= λ _. n

-- `memcpy(dst, src, n)` on the bytes of two objects.
unfoldable pub memcpy : List ℕ → List ℕ → ℕ → List ℕ
memcpy dst src n = take n src ++ drop n dst

pub take-memcpy : (dst src : List ℕ) → take (length src) (memcpy dst src (length src)) ≡ src
unfolding memcpy
take-memcpy dst src = rw (take-length src) (take-length-append src (drop (length src) dst))

pub length-memcpy :
    (dst src : List ℕ)
    → length (memcpy dst src (length src)) ≡ length src + (length dst - length src)
unfolding memcpy
length-memcpy dst src = rw (take-length src) (
    length-append src (drop (length src) dst)
    ∙ ap (λ n. length src + n) (length-drop (length src) dst))

unfoldable pub sendto : ℕ → List ℕ → List ℕ → Cmd Ssize
sendto fd buffer dest k =
    let answer = k.send_answer k.sends in
    (answer, record k { sends = k.sends + 1; log = k.log ++ sent fd buffer dest answer ∷ [] })

-- The kernel cuts a datagram that is longer than the buffer.
abbrev pub cut : ℕ → Arrival → Arrival
cut n (datagram payload source) = datagram (take n payload) source
cut n (nothing e) = nothing e

unfoldable pub recvfrom : ℕ → ℕ → Cmd Arrival
recvfrom fd buffer_size k = (
  cut buffer_size (k.recv_answer k.recvs),
  record k { recvs = k.recvs + 1; log = k.log ++ received fd ∷ [] },
)

unfoldable pub close : ℕ → Cmd (Unit {0})
close fd k = (tt, record k { log = k.log ++ closed fd ∷ [] })
